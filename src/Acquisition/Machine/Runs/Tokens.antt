-- ===== src/Acquisition/Machine/Runs/Tokens.antt =====
-- Proofs on the hashes of page tokens.
use peas_engine.Prelude.{
  ◌≡◌, ◌≢◌, refl, Bool, true, false, not, ◌||◌, List, [], ◌∷◌, some, ok, String, arith, str_eq,
  str_eq_refl, str_eq_iff, ◌+◌, >>=-eq-ok, ok_injective, fail_if, fail_if-eq-ok,
}
use peas_engine.Digest.{Platform}
use peas_engine.Acquisition.Identity.{derive_private_token_hash}
use peas_engine.Acquisition.Machine.{
  Snapshot, Event, Kind, ContinuationAuthority, continue_next_page,
}
use peas_engine.Acquisition.Machine.Step.{
  insert_hash, includes_hash, continue_token, dispatched, continued, checkpointed, with_facts,
}
use peas_engine.Acquisition.Machine.Run.{Plan, apply_events, derive_acquisition_transition}
use peas_engine.Acquisition.Machine.Facts.{
  Effect, Accepted-Effect, moved, derive_acquisition_transition-Derived,
}
use peas_engine.Acquisition.Machine.Runs.{apply_events-keeps}

includes_hash-insert_self :
    (h : String) (hs : List String) → includes_hash (insert_hash h hs) h ≡ true
unfolding includes_hash insert_hash
includes_hash-insert_self h [] = rw (str_eq_refl h) refl
includes_hash-insert_self h (g ∷ gs) = ground (arith, str_eq_refl h, includes_hash-insert_self h gs)

includes_hash-insert :
    (h g : String) (hs : List String)
    → includes_hash hs g ≡ true
    → includes_hash (insert_hash h hs) g ≡ true
unfolding includes_hash insert_hash
includes_hash-insert h g [] e = cc
includes_hash-insert h g (k ∷ ks) e = ground (arith, includes_hash-insert h g ks)

-- The hash of a token that the run has consumed.
abbrev pub Consumed : String → Snapshot → Type 0
Consumed h s = includes_hash s.consumed_token_hashes h ≡ true

Effect-Consumed :
    {p : Platform} {s : Snapshot} (e : Event) {k : Kind} {t : Snapshot} (h : String)
    → Effect p s e.proof (moved s e) k t
    → Consumed h s
    → Consumed h t
unfolding dispatched continued checkpointed with_facts
Effect-Consumed {s} e h (Effect.continuation authority token page a fresh) c =
    includes_hash-insert token h s.consumed_token_hashes c
Effect-Consumed e h (Effect.plain k ek) c = c
Effect-Consumed e h _ c = c

or_not-eq-false : (a b : Bool) → not a || b ≡ false → (a ≡ true) × (b ≡ false)
or_not-eq-false true b h = (refl, h)
or_not-eq-false false b h = cc

continue_token-fresh :
    (p : Platform) (s : Snapshot) (authority : ContinuationAuthority) (token : String)
    → continue_token p s authority ≡ ok token
    → (token ≡ authority.next_token_hash) × (includes_hash s.consumed_token_hashes token ≡ false)
unfolding continue_token
continue_token-fresh p s authority token h =
    let (t, derived, h₁) =
      >>=-eq-ok (derive_private_token_hash p authority.next_token_material) _ h in
    let (u, checked, h₂) =
      >>=-eq-ok
        (fail_if
          (not (str_eq t authority.next_token_hash) || includes_hash s.consumed_token_hashes t)
          "continuation-token-invalid")
        _ h₁ in
    let (same, fresh) =
      or_not-eq-false (str_eq t authority.next_token_hash) (includes_hash s.consumed_token_hashes t)
        (fail_if-eq-ok _ _ checked) in
    rw (ok_injective h₂) ((str_eq_iff t authority.next_token_hash).0 same, fresh)

Effect-continuation :
    {p : Platform} {s : Snapshot} (e : Event) {t : Snapshot}
    → Effect p s e.proof (moved s e) continue_next_page t
    → (authority : ContinuationAuthority) × (s.continuation_authority ≡ some authority)
      × (t.current_token_hash ≡ authority.next_token_hash)
      × (includes_hash s.consumed_token_hashes t.current_token_hash ≡ false)
      × Consumed t.current_token_hash t
      × (t.page_ordinal ≡ s.page_ordinal + 1)
unfolding continued
Effect-continuation {p} {s} e (Effect.continuation authority token page a derived) =
    let (same, fresh) = continue_token-fresh p s authority token derived in
    (authority, a, same, fresh, includes_hash-insert_self token s.consumed_token_hashes, refl)
Effect-continuation e (Effect.plain k ek) = cc

-- A token hash that a run has consumed stays consumed over every sequence of events, and a later
-- accepted `continue-next-page` moves to the next page under another token hash, that of the
-- checkpointed continuation, and consumes it.
pub derive-continue_fresh :
    (p : Platform) (s : Snapshot) (h : String) (es : List (Event × Bool)) (e : Event) (plan : Plan)
    → includes_hash s.consumed_token_hashes h ≡ true
    → e.kind ≡ continue_next_page
    → derive_acquisition_transition p (apply_events p s es) e ≡ ok plan
    → (includes_hash (apply_events p s es).consumed_token_hashes h ≡ true)
      × (plan.next.current_token_hash ≢ h)
      × (includes_hash plan.next.consumed_token_hashes plan.next.current_token_hash ≡ true)
      × (plan.next.page_ordinal ≡ (apply_events p s es).page_ordinal + 1)
      × ((authority : ContinuationAuthority) × ((apply_events p s es).continuation_authority
            ≡ some authority)
          × (plan.next.current_token_hash ≡ authority.next_token_hash))
derive-continue_fresh p s h es e plan c same d =
    let t = apply_events p s es in
    let kept : Consumed h t =
      apply_events-keeps p (Consumed h) (λ s e t a i. Effect-Consumed e h a.effect i) s es c in
    let a = (derive_acquisition_transition-Derived p t e plan d).accepted in
    let (authority, found, token, fresh, consumed, ordinal) =
      Effect-continuation e (Accepted-Effect continue_next_page same a) in
    (kept, λ eq. (cc), consumed, ordinal, (authority, found, token))
