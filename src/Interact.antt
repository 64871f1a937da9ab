-- ===== src/Interact.antt =====
-- crates/interact/src/backend.rs, error.rs and negotiator.rs: the registry of interaction backends and
-- the choice between them. What the backends do to the world around the program is a function on a
-- state of any type.
pub mod Action
pub mod Choice
pub mod Stub
use ko_rkuma.Prelude.{
  ℕ, suc, Bool, true, false, ◌≡◌, String, List, [], ◌∷◌, ◌++◌, Option, none, some, Result, ok, err,
  leb, ltb, if◌then◌else◌,
}
use ko_rkuma.Domain.{ℤ, OnNoBackground, Permission, TargetSelector, UiOp}
use ko_rkuma.Permission.{PermissionGrant, allows}

pub data Tier : Type 0 where
  unsupported foreground_synthetic background : Tier

-- The derived order.
abbrev pub rank : Tier → ℕ
rank Tier.unsupported = 0
rank Tier.foreground_synthetic = 1
rank Tier.background = 2

pub data TargetInner : Type 0 where
  window_handle : (hwnd : ℤ) → TargetInner
  browser_tab : (port : ℕ) (target_id ws_url url : String) → TargetInner
  stub : (id : String) (tier : Tier) → TargetInner

pub record ResolvedTarget : Type 0 where
  pub backend_id : String
  pub display_name : String
  pub inner : TargetInner

pub record UiNode : Type 0 where
  pub path : String
  pub name : String
  pub control_type : String

pub data BackendError : Type 0 where
  not_found not_available not_supported internal : String → BackendError

pub data DispatchError : Type 0 where
  no_backend queued : DispatchError
  backend : BackendError → DispatchError
  permission_denied : String → DispatchError

-- What a call returns, and the world that it leaves.
pub record Invoked (W R : Type 0) : Type 0 where
  pub result : R
  pub world : W

pub record InteractionBackend (W : Type 0) : Type 0 where
  pub id : String
  pub resolve : TargetSelector → W → Result BackendError (List ResolvedTarget)
  pub capability : ResolvedTarget → Tier
  pub invoke : ResolvedTarget → UiOp → W → Invoked W (Result BackendError Unit)
  pub enumerate : ResolvedTarget → W → Result BackendError (List UiNode)

module _ (W : Type 0) where
  pub record BackendRegistry : Type 0 where
    pub backends : List (InteractionBackend W)

  pub record Candidate : Type 0 where
    pub of : InteractionBackend W
    pub target : ResolvedTarget
    pub tier : Tier

abbrev pub targets_of : Result BackendError (List ResolvedTarget) → List ResolvedTarget
targets_of (ok targets) = targets
targets_of (err e) = []

abbrev pub map_backend_error : Result {0, 0} BackendError Unit → Result {0, 0} DispatchError Unit
map_backend_error (ok u) = ok u
map_backend_error (err e) = err (DispatchError.backend e)

module _ {W : Type 0} where
  abbrev pub new : BackendRegistry W
  new = record { backends = [] }

  abbrev pub register : InteractionBackend W → BackendRegistry W → BackendRegistry W
  register b reg = record { backends = reg.backends ++ (b ∷ []) }

  -- The inner loop: the targets of one backend with a usable tier.
  unfoldable pub usable : InteractionBackend W → List ResolvedTarget → List (Candidate W)
  usable b [] = []
  usable b (t ∷ targets) =
      let rest = usable b targets in
      if ltb 0 (rank (b.capability t))
      then record { of = b; target = t; tier = b.capability t } ∷ rest
      else rest

  -- The outer loop. A backend whose `resolve` fails is passed over.
  unfoldable pub gather : List (InteractionBackend W) → TargetSelector → W → List (Candidate W)
  unfolding usable
  gather [] sel w = []
  gather (b ∷ backends) sel w = usable b (targets_of (b.resolve sel w)) ++ gather backends sel w

  -- `sort_by`, which keeps the order of equal tiers.
  unfoldable pub place : Candidate W → List (Candidate W) → List (Candidate W)
  place c [] = c ∷ []
  place c (d ∷ candidates) =
      let below = place c candidates in
      if leb (rank d.tier) (rank c.tier) then c ∷ d ∷ candidates else d ∷ below

  unfoldable pub sort_by_tier : List (Candidate W) → List (Candidate W)
  unfolding place
  sort_by_tier [] = []
  sort_by_tier (c ∷ candidates) = place c (sort_by_tier candidates)

  unfoldable pub collect_candidates : BackendRegistry W → TargetSelector → W → List (Candidate W)
  collect_candidates reg sel w = sort_by_tier (gather reg.backends sel w)

  -- `candidates.iter().position(|(_, _, t)| *t >= tier)`, with the element.
  unfoldable pub first_at_least : Tier → List (Candidate W) → Option (Candidate W)
  first_at_least tier [] = none
  first_at_least tier (c ∷ candidates) =
      if leb (rank tier) (rank c.tier) then some c else first_at_least tier candidates

  abbrev pub invoke_on : Candidate W → UiOp → W → Invoked W (Result DispatchError Unit)
  invoke_on c op w =
      let done = c.of.invoke c.target op w in
      record { result = map_backend_error done.result; world = done.world }

  abbrev pub refuse : DispatchError → W → Invoked W (Result DispatchError Unit)
  refuse e w = record { result = err e; world = w }

  unfoldable pub degrade :
      List (Candidate W) → UiOp → PermissionGrant → W → Invoked W (Result DispatchError Unit)
  unfolding allows
  degrade candidates op permissions w =
      if allows permissions Permission.foreground_takeover
      then elim (first_at_least Tier.foreground_synthetic candidates) [
        | none ↦ refuse DispatchError.no_backend w
        | some c ↦ invoke_on c op w
      ]
      else refuse
          (DispatchError.permission_denied
            "ForegroundTakeover permission required for Degrade fallback")
          w

  unfoldable pub apply_policy :
      OnNoBackground
      → List (Candidate W)
      → UiOp
      → PermissionGrant
      → W
      → Invoked W (Result DispatchError Unit)
  apply_policy OnNoBackground.fail candidates op permissions w = refuse DispatchError.no_backend w
  apply_policy OnNoBackground.queue candidates op permissions w = refuse DispatchError.queued w
  apply_policy OnNoBackground.degrade candidates op permissions w =
      degrade candidates op permissions w

  unfoldable pub dispatch :
      BackendRegistry W
      → TargetSelector
      → UiOp
      → OnNoBackground
      → PermissionGrant
      → W
      → Invoked W (Result DispatchError Unit)
  dispatch reg sel op policy permissions w =
      let candidates = collect_candidates reg sel w in
      elim (first_at_least Tier.background candidates) [
        | some c ↦ invoke_on c op w
        | none ↦ apply_policy policy candidates op permissions w
      ]

  -- `max_by_key`, which returns the last of several greatest elements.
  unfoldable pub max_by_tier : List (Candidate W) → Option (Candidate W)
  max_by_tier [] = none
  max_by_tier (c ∷ candidates) = elim (max_by_tier candidates) [
    | none ↦ some c
    | some d ↦ if ltb (rank d.tier) (rank c.tier) then some c else some d
  ]

  unfoldable pub enumerate_nodes :
      BackendRegistry W → TargetSelector → W → Result DispatchError (List UiNode)
  enumerate_nodes reg sel w = elim (max_by_tier (collect_candidates reg sel w)) [
    | none ↦ ok []
    | some c ↦ elim (c.of.enumerate c.target w) [
      | ok nodes ↦ ok nodes
      | err e ↦ err (DispatchError.backend e)
    ]
  ]
