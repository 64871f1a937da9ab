-- ===== src/Interact/Choice.antt =====
-- Which backend `dispatch` calls.
use ko_rkuma.Prelude.{
  true, ◌&&◌, ◌≡◌, refl, ap, ◌∙◌, List, [], ◌∷◌, Option, none, some, Result, leb, Option-cases, inl,
  inr, arith, if◌then◌else◌,
}
use ko_rkuma.Domain.{OnNoBackground, Permission, TargetSelector, UiOp}
use ko_rkuma.Permission.{PermissionGrant, allows}
use ko_rkuma.Interact.{
  Tier, rank, BackendRegistry, Candidate, Invoked, DispatchError, gather, place, sort_by_tier,
  collect_candidates, first_at_least, invoke_on, refuse, degrade, apply_policy, dispatch,
}

module _ {W : Type 0} where
  -- The first candidate, in the order of registration, with exactly a tier.
  unfoldable pub first_of : Tier → List (Candidate W) → Option (Candidate W)
  first_of tier [] = none
  first_of tier (c ∷ candidates) =
      if leb (rank tier) (rank c.tier) && leb (rank c.tier) (rank tier)
      then some c
      else first_of tier candidates

  -- The choice without sorting: the policy decides only where no candidate works in the background,
  -- and only `Degrade` with its permission takes a candidate that needs the foreground.
  abbrev pub chosen_foreground :
      List (Candidate W) → UiOp → PermissionGrant → W → Invoked W (Result DispatchError Unit)
  chosen_foreground candidates op permissions w =
      if allows permissions Permission.foreground_takeover
      then elim (first_of Tier.foreground_synthetic candidates) [
        | none ↦ refuse DispatchError.no_backend w
        | some c ↦ invoke_on c op w
      ]
      else refuse
          (DispatchError.permission_denied
            "ForegroundTakeover permission required for Degrade fallback")
          w

  abbrev pub by_policy :
      OnNoBackground
      → List (Candidate W)
      → UiOp
      → PermissionGrant
      → W
      → Invoked W (Result DispatchError Unit)
  by_policy OnNoBackground.fail candidates op permissions w = refuse DispatchError.no_backend w
  by_policy OnNoBackground.queue candidates op permissions w = refuse DispatchError.queued w
  by_policy OnNoBackground.degrade candidates op permissions w =
      chosen_foreground candidates op permissions w

  abbrev pub chosen :
      List (Candidate W)
      → OnNoBackground
      → UiOp
      → PermissionGrant
      → W
      → Invoked W (Result DispatchError Unit)
  chosen candidates policy op permissions w = elim (first_of Tier.background candidates) [
    | some c ↦ invoke_on c op w
    | none ↦ by_policy policy candidates op permissions w
  ]

  first_at_least-place :
      (tier : Tier) (c : Candidate W) (candidates : List (Candidate W))
      → first_of tier (place c candidates) ≡ (
          if leb (rank tier) (rank c.tier) && leb (rank c.tier) (rank tier)
          then some c
          else first_of tier candidates)
  unfolding place first_of
  first_at_least-place tier c [] = refl
  first_at_least-place tier c (d ∷ candidates) =
      ground (arith, first_at_least-place tier c candidates)

  first_of-sort_by_tier :
      (tier : Tier) (candidates : List (Candidate W))
      → first_of tier (sort_by_tier candidates) ≡ first_of tier candidates
  unfolding sort_by_tier first_of
  first_of-sort_by_tier tier [] = refl
  first_of-sort_by_tier tier (c ∷ candidates) =
      first_at_least-place tier c (sort_by_tier candidates)
      ∙ ap
          (λ z.
            if leb (rank tier) (rank c.tier) && leb (rank c.tier) (rank tier) then some c else z)
          (first_of-sort_by_tier tier candidates)

  background-top :
      (candidates : List (Candidate W))
      → first_at_least Tier.background candidates ≡ first_of Tier.background candidates
  unfolding first_at_least first_of
  background-top [] = refl
  background-top (c ∷ candidates) = ground (arith, background-top candidates, below c.tier)
    where
      below : (t : Tier) → leb (rank t) 2 ≡ true
      below Tier.unsupported = refl
      below Tier.foreground_synthetic = refl
      below Tier.background = refl

  foreground-next :
      (candidates : List (Candidate W))
      → first_at_least Tier.background candidates ≡ none
      → first_at_least Tier.foreground_synthetic candidates
        ≡ first_of Tier.foreground_synthetic candidates
  unfolding first_at_least first_of
  foreground-next [] e = refl
  foreground-next (c ∷ candidates) e = ground (arith, foreground-next candidates, e)

  policy_lem :
      (cs : List (Candidate W)) (policy : OnNoBackground) (op : UiOp)
      (permissions : PermissionGrant) (w : W)
      → first_at_least Tier.background (sort_by_tier cs) ≡ none
      → apply_policy policy (sort_by_tier cs) op permissions w
        ≡ by_policy policy cs op permissions w
  unfolding apply_policy degrade
  policy_lem cs OnNoBackground.fail op permissions w e = refl
  policy_lem cs OnNoBackground.queue op permissions w e = refl
  policy_lem cs OnNoBackground.degrade op permissions w e =
      let next =
        foreground-next (sort_by_tier cs) e ∙ first_of-sort_by_tier Tier.foreground_synthetic cs in
      rw (next, degrade) refl

  -- `dispatch` calls at most one backend, once. It is the first in the order of registration that can
  -- work in the background, whatever the policy; where there is none, only the policy `Degrade` calls
  -- a backend, the first that can work in the foreground, and only with `ForegroundTakeover`. In all
  -- other cases the world stays as it is and the error tells why.
  pub dispatch-chosen :
      (reg : BackendRegistry W) (sel : TargetSelector) (op : UiOp) (policy : OnNoBackground)
      (permissions : PermissionGrant) (w : W)
      → dispatch reg sel op policy permissions w
        ≡ chosen (gather reg.backends sel w) policy op permissions w
  unfolding dispatch collect_candidates
  dispatch-chosen reg sel op policy permissions w =
      let cs = gather reg.backends sel w in
      let top = background-top (sort_by_tier cs) ∙ first_of-sort_by_tier Tier.background cs in
      elim (Option-cases (first_of Tier.background cs)) [
        | inr (c, e) ↦ rw (top, dispatch) (rw (e, chosen) refl)
        | inl e ↦
            rw (top, dispatch) (rw (e, chosen) (policy_lem cs policy op permissions w (top ∙ e)))
      ]
