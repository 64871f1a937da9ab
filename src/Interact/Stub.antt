-- ===== src/Interact/Stub.antt =====
-- crates/interact/src/backends/stub.rs: the backend for tests. `debug` is the derived `Debug` text of
-- a selector.
use ko_rkuma.Prelude.{String, List, [], ◌∷◌, Option, none, some, Result, ok, err}
use ko_rkuma.Domain.{TargetSelector}
use ko_rkuma.Interact.{Tier, TargetInner, ResolvedTarget, BackendError, InteractionBackend}

pub record StubBackend : Type 0 where
  pub tier : Tier
  pub invoke_error : Option String

abbrev pub stub : Tier → StubBackend
stub tier = record { tier = tier; invoke_error = none }

abbrev pub failing : Tier → String → StubBackend
failing tier error = record { tier = tier; invoke_error = some error }

abbrev pub stub_targets : Tier → String → List ResolvedTarget
stub_targets Tier.unsupported id = []
stub_targets tier id =
    record { backend_id = "stub"; display_name = id; inner = TargetInner.stub id tier } ∷ []

abbrev pub stub_tier : TargetInner → Tier
stub_tier (TargetInner.stub id tier) = tier
stub_tier _ = Tier.unsupported

abbrev pub stub_result : Option String → Result {0, 0} BackendError Unit
stub_result none = ok tt
stub_result (some error) = err (BackendError.internal error)

abbrev pub stub_backend :
    {W : Type 0} → (TargetSelector → String) → StubBackend → InteractionBackend W
stub_backend debug b = record {
  id = "stub";
  resolve = λ sel w. ok (stub_targets b.tier (debug sel));
  capability = λ t. stub_tier t.inner;
  invoke = λ t op w. record { result = stub_result b.invoke_error; world = w };
  enumerate = λ t w.
      ok (record { path = "stub-node"; name = "Stub Element"; control_type = "Button" } ∷ []);
}
