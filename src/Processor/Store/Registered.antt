-- ===== src/Processor/Store/Registered.antt =====
-- What ensureRun of the in-memory store leaves as it is.
use peas_engine.Prelude.{◌≡◌, ap, Option, none, some, ok, >>=-eq-ok, ok_injective, arith}
use peas_engine.Digest.{Platform}
use peas_engine.Events.Log.{lookup}
use peas_engine.Processor.{RunRegistration}
use peas_engine.Processor.Validate.{validate_run_registration}
use peas_engine.Processor.Store.{MemoryStore, ensure_verified, ensure_run}

-- Everything but the runs.
pub record KeepsRest (s s' : MemoryStore) : Type 0 where
  pub cursors : s'.cursors ≡ s.cursors
  pub outputs : s'.outputs ≡ s.outputs
  pub dedupe_keys : s'.dedupe_keys ≡ s.dedupe_keys
  pub dispatchable_jobs : s'.dispatchable_jobs ≡ s.dispatchable_jobs
  pub dispatchable_outbox : s'.dispatchable_outbox ≡ s.dispatchable_outbox

KeepsRest-refl : (s s' : MemoryStore) → s' ≡ s → KeepsRest s s'
KeepsRest-refl s s' same = record {
  cursors = ap (λ t. t.cursors) same;
  outputs = ap (λ t. t.outputs) same;
  dedupe_keys = ap (λ t. t.dedupe_keys) same;
  dispatchable_jobs = ap (λ t. t.dispatchable_jobs) same;
  dispatchable_outbox = ap (λ t. t.dispatchable_outbox) same;
}

ensure_verified-KeepsRest :
    (p : Platform) (r : RunRegistration) (s s' : MemoryStore) (known : Option RunRegistration)
    → ensure_verified p r s known ≡ ok s'
    → KeepsRest s s'
unfolding ensure_verified
ensure_verified-KeepsRest p r s s' none h = record {
  cursors = ap (λ t. t.cursors) (ok_injective h);
  outputs = ap (λ t. t.outputs) (ok_injective h);
  dedupe_keys = ap (λ t. t.dedupe_keys) (ok_injective h);
  dispatchable_jobs = ap (λ t. t.dispatchable_jobs) (ok_injective h);
  dispatchable_outbox = ap (λ t. t.dispatchable_outbox) (ok_injective h);
}
ensure_verified-KeepsRest p r s s' (some known) h = KeepsRest-refl s s' (ground arith)

pub ensure_run-KeepsRest :
    (p : Platform) (r : RunRegistration) (s s' : MemoryStore)
    → ensure_run p r s ≡ ok s'
    → KeepsRest s s'
unfolding ensure_run
ensure_run-KeepsRest p r s s' h =
    let (verified, _, h₁) = >>=-eq-ok (validate_run_registration p r) _ h in
    ensure_verified-KeepsRest p verified s s' (lookup verified.manifest.run_id s.runs) h₁
