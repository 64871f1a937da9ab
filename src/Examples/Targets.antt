-- ===== src/Examples/Targets.antt =====
-- The theorems on interaction at a registry of two stubs, of which the second works in the background.
use ko_rkuma.Prelude.{ℕ, arith, ◌≡◌, ◌≢◌, String, [], ◌∷◌, err, contains}
use ko_rkuma.Domain.{
  ActionConfig, ActionError, OnNoBackground, Permission, permission_eq, TargetSelector, UiOp,
}
use ko_rkuma.Interact.{Tier, BackendRegistry, gather, dispatch}
use ko_rkuma.Interact.Choice.{chosen, dispatch-chosen}
use ko_rkuma.Interact.Action.{
  InteractAction, required_permissions, execute, required_permissions-add_action_perms,
  execute-permitted,
}
use ko_rkuma.Interact.Stub.{stub, failing, stub_backend}
use ko_rkuma.Workflow.{find_missing}
use ko_rkuma.Permission.{allows, add_action_perms}
use ko_rkuma.Context.{ExecContext}
use ko_rkuma.Examples.{context}

abbrev text_of : TargetSelector → String
text_of sel = "target"

abbrev stubs : BackendRegistry ℕ
stubs = record {
  backends =
      stub_backend text_of (failing Tier.foreground_synthetic "no focus")
      ∷ stub_backend text_of (stub Tier.background)
      ∷ [];
}

abbrev click : InteractAction ℕ
click = record {
  target = TargetSelector.foreground;
  op = UiOp.click "ok";
  on_no_background = OnNoBackground.degrade;
  registry = stubs;
}

abbrev trusted : ExecContext
trusted = record context {
  permissions = record {
    granted = Permission.window_interaction ∷ Permission.foreground_takeover ∷ [];
  };
}

dispatch-chosen_example :
    dispatch stubs TargetSelector.foreground
      (UiOp.click "ok")
      OnNoBackground.degrade
      trusted.permissions
      0
    ≡ chosen
        (gather stubs.backends TargetSelector.foreground 0)
        OnNoBackground.degrade
        (UiOp.click "ok")
        trusted.permissions
        0
dispatch-chosen_example =
    dispatch-chosen stubs TargetSelector.foreground (UiOp.click "ok") OnNoBackground.degrade
      trusted.permissions 0

required_permissions-add_action_perms_example :
    contains (required_permissions click).permissions Permission.foreground_takeover
    ≡ contains
        (add_action_perms
          (ActionConfig.interact TargetSelector.foreground (UiOp.click "ok") OnNoBackground.degrade)
          [])
        Permission.foreground_takeover
required_permissions-add_action_perms_example =
    required_permissions-add_action_perms click Permission.foreground_takeover

execute-permitted_example :
    (execute click trusted 0).result ≢ err (ActionError.permission_denied "ForegroundTakeover")
unfolding find_missing allows contains required_permissions
execute-permitted_example = execute-permitted click trusted 0 "ForegroundTakeover" (
    ground (
      arith,
      permission_eq.beq_iff Permission.window_interaction Permission.window_interaction,
      permission_eq.beq_iff Permission.foreground_takeover Permission.foreground_takeover,
    ))
