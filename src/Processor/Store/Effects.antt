-- ===== src/Processor/Store/Effects.antt =====
-- The dispatchable outputs of the in-memory store.
use peas_engine.Prelude.{
  ◌≡◌, refl, sym, ap, ◌∙◌, ◌⊎◌, String, true, Bool-cases, inl, inr, List, Option, none, some, ok,
  >>=-eq-ok, ok_injective, str_eq, str_eq_iff, arith,
}
use peas_engine.Digest.{Platform}
use peas_engine.Events.{StoredEvent}
use peas_engine.Events.Log.{lookup}
use peas_engine.Processor.{RunKind, live, RunManifest, RunRegistration, ProcessingCommit}
use peas_engine.Processor.Validate.{
  is_live, assert_run_effect_policy, derive_run_registration, validate_run_registration,
}
use peas_engine.Processor.Store.{
  MemoryStore, empty_store, put, write_commit, ensure_run, ensure_verified,
}
use peas_engine.Processor.Store.Accepted.{IsAccepted, commit-IsAccepted}
use peas_engine.Processor.Store.Concurrency.{Reaches, here, committed, registered}
use peas_engine.Processor.Store.Lookup.{lookup-put_self, lookup-put_ne}
use peas_engine.Processor.Store.Pending.{some_injective}

-- A registration that allows effects is of a live run.
abbrev IsLawful : RunRegistration → Type 0
IsLawful r = r.manifest.effects_allowed ≡ true → r.manifest.kind ≡ live

is_live-live : (k : RunKind) → is_live k ≡ true → k ≡ live
is_live-live live h = refl
is_live-live RunKind.replay h = cc
is_live-live RunKind.shadow h = cc
is_live-live RunKind.research h = cc
is_live-live RunKind.paper h = cc

policy-IsLawful :
    (m : RunManifest)
    → assert_run_effect_policy m ≡ ok tt
    → m.effects_allowed ≡ true
    → m.kind ≡ live
unfolding assert_run_effect_policy
policy-IsLawful m h allowed = is_live-live m.kind (ground arith)

derive-manifest :
    (p : Platform) (m : RunManifest) (r : RunRegistration)
    → derive_run_registration p m ≡ ok r
    → (r.manifest ≡ m) × (assert_run_effect_policy m ≡ ok tt)
unfolding derive_run_registration
derive-manifest p m r h = ground arith

validate_run_registration-IsLawful :
    (p : Platform) (r r' : RunRegistration) → validate_run_registration p r ≡ ok r' → IsLawful r'
unfolding validate_run_registration
validate_run_registration-IsLawful p r r' h =
    let derived : derive_run_registration p r.manifest ≡ ok r' = ground arith in
    let (same, policy) = derive-manifest p r.manifest r' derived in
    rw same (policy-IsLawful r.manifest policy)

-- Every registered run that allows effects is live.
abbrev pub Lawful : MemoryStore → Type 0
Lawful s = (run : String) (r : RunRegistration) → lookup run s.runs ≡ some r → IsLawful r

ensure_verified-runs :
    (p : Platform) (v : RunRegistration) (s s' : MemoryStore) (known : Option RunRegistration)
    → ensure_verified p v s known ≡ ok s'
    → ((known ≡ none) × (s'.runs ≡ put v.manifest.run_id v s.runs)) ⊎ (s'.runs ≡ s.runs)
unfolding ensure_verified
ensure_verified-runs p v s s' none h = inl (refl, ap (λ t. t.runs) (ok_injective h))
ensure_verified-runs p v s s' (some r) h = inr (ground arith)

-- What a registration does to the runs: it adds one that is lawful and was not there, or nothing.
pub ensure_run-runs :
    (p : Platform) (r : RunRegistration) (s s' : MemoryStore)
    → ensure_run p r s ≡ ok s'
    → ((v : RunRegistration) × (IsLawful v)
        × (lookup v.manifest.run_id s.runs ≡ none)
        × (s'.runs ≡ put v.manifest.run_id v s.runs))
      ⊎ (s'.runs ≡ s.runs)
unfolding ensure_run
ensure_run-runs p r s s' h =
    let (v, validated, h₁) = >>=-eq-ok (validate_run_registration p r) _ h in
    elim (ensure_verified-runs p v s s' (lookup v.manifest.run_id s.runs) h₁) [
      | inl (absent, added) ↦
          inl (v, validate_run_registration-IsLawful p r v validated, absent, added)
      | inr same ↦ inr same
    ]

put-Lawful :
    (s s' : MemoryStore) (v : RunRegistration)
    → IsLawful v
    → s'.runs ≡ put v.manifest.run_id v s.runs
    → Lawful s
    → Lawful s'
put-Lawful s s' v lawful added before run r h =
    let found = sym (ap (λ m. lookup run m) added) ∙ h in
    elim (Bool-cases (str_eq run v.manifest.run_id)) [
      | inl same ↦
          (let at =
              ap (λ k. lookup k (put v.manifest.run_id v s.runs))
                (sym ((str_eq_iff run v.manifest.run_id).0 same))
              ∙ found in
            let r-v : r ≡ v =
              some_injective (sym at ∙ lookup-put_self v.manifest.run_id v s.runs) in
            rw r-v lawful)
      | inr other ↦ before run r (sym (lookup-put_ne v.manifest.run_id run v s.runs other) ∙ found)
    ]

-- The runs of the store after an accepted commit are those before it.
pub commit-runs :
    (p : Platform) (events : List StoredEvent) (s s' : MemoryStore) (v : ProcessingCommit)
    → IsAccepted p events s v s'
    → s'.runs ≡ s.runs
unfolding write_commit
commit-runs p events s s' v accepted = ap (λ t. t.runs) accepted.written

same_runs-Lawful : (s s' : MemoryStore) → s'.runs ≡ s.runs → Lawful s → Lawful s'
same_runs-Lawful s s' same before run r h = before run r (sym (ap (λ m. lookup run m) same) ∙ h)

empty-Lawful : Lawful empty_store
unfolding lookup
empty-Lawful run r h = cc

pub Reaches-Lawful : (p : Platform) (s : MemoryStore) → Reaches p empty_store s → Lawful s
Reaches-Lawful p _ here = empty-Lawful
Reaches-Lawful p _ (committed events v s₁ s₂ before h) =
    same_runs-Lawful s₁ s₂ (commit-runs p events s₁ s₂ v (commit-IsAccepted p events s₁ s₂ v h))
      (Reaches-Lawful p s₁ before)
Reaches-Lawful p _ (registered r s₁ s₂ before h) = elim (ensure_run-runs p r s₁ s₂ h) [
  | inl (v, lawful, absent, added) ↦ put-Lawful s₁ s₂ v lawful added (Reaches-Lawful p s₁ before)
  | inr same ↦ same_runs-Lawful s₁ s₂ same (Reaches-Lawful p s₁ before)
]

-- A registered run stays registered as it is.
pub ensure_run-keeps :
    (p : Platform) (r : RunRegistration) (s s' : MemoryStore) (run : String)
    (known : RunRegistration)
    → ensure_run p r s ≡ ok s'
    → lookup run s.runs ≡ some known
    → lookup run s'.runs ≡ some known
ensure_run-keeps p r s s' run known h found = elim (ensure_run-runs p r s s' h) [
  | inl (v, _, absent, added) ↦ elim (Bool-cases (str_eq run v.manifest.run_id)) [
    | inl same ↦
        (let at =
            sym absent
            ∙ ap (λ k. lookup k s.runs) (sym ((str_eq_iff run v.manifest.run_id).0 same))
            ∙ found in
          cc)
    | inr other ↦
        ap (λ m. lookup run m) added ∙ lookup-put_ne v.manifest.run_id run v s.runs other ∙ found
  ]
  | inr same ↦ ap (λ m. lookup run m) same ∙ found
]
