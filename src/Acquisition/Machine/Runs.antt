-- ===== src/Acquisition/Machine/Runs.antt =====
-- Runs of the acquisition machine: induction over a sequence of events, and what every run keeps.
pub mod Pacing
pub mod Waits
pub mod Pages
pub mod Tokens
pub mod Endings
mod Tests
use peas_engine.Prelude.{
  ℕ, ◌≤◌, ◌≡◌, refl, ◌∙◌, Bool, true, false, List, [], ◌∷◌, inl, inr, Result, ok, err, arith,
}
use peas_engine.Digest.{Platform}
use peas_engine.Acquisition.Machine.{Snapshot, Event, event_target}
use peas_engine.Acquisition.Machine.Run.{
  Plan, derive_acquisition_transition, after_plan, apply_event, apply_events,
}
use peas_engine.Acquisition.Machine.Facts.{Accepted, derive_acquisition_transition-Derived}
use peas_engine.Acquisition.Machine.Frame.{SameRun, Accepted-Moves}

after_plan-keeps {ℓ} :
    (p : Platform) (I : Snapshot → Type ℓ) (persisted : Bool) (s : Snapshot) (r : Result Plan)
    → ((plan : Plan) → r ≡ ok plan → I plan.next)
    → I s
    → I (after_plan p persisted s r)
unfolding after_plan
after_plan-keeps p I persisted s (err e) step i = i
after_plan-keeps p I true s (ok plan) step i = step plan refl
after_plan-keeps p I false s (ok plan) step i = i

module _ (p : Platform) where
  -- What every accepted event keeps, a run keeps.
  pub apply_events-keeps {ℓ} :
      (I : Snapshot → Type ℓ)
      → ((s : Snapshot) (e : Event) (t : Snapshot) → Accepted p s e t → I s → I t)
      → (s : Snapshot) (es : List (Event × Bool)) → I s
      → I (apply_events p s es)
  unfolding apply_events apply_event
  apply_events-keeps I step s [] i = i
  apply_events-keeps I step s ((e, persisted) ∷ es) i =
      let r = derive_acquisition_transition p s e in
      apply_events-keeps I step (after_plan p persisted s r) es (
        after_plan-keeps p I persisted s r
          (λ plan h.
            step s e plan.next (derive_acquisition_transition-Derived p s e plan h).accepted i)
          i)

  -- What every transition keeps whose two snapshots pass validation, a run keeps.
  pub apply_events-transitions {ℓ} :
      (I : Snapshot → Type ℓ)
      → ((s : Snapshot) (e : Event) (plan : Plan)
          → derive_acquisition_transition p s e ≡ ok plan
          → I s
          → I plan.next)
      → (s : Snapshot) (es : List (Event × Bool)) → I s
      → I (apply_events p s es)
  unfolding apply_events apply_event
  apply_events-transitions I step s [] i = i
  apply_events-transitions I step s ((e, persisted) ∷ es) i =
      let r = derive_acquisition_transition p s e in
      apply_events-transitions I step (after_plan p persisted s r) es
        (after_plan-keeps p I persisted s r (λ plan h. step s e plan h i) i)

-- A later snapshot of the same run.
pub record Later (s t : Snapshot) : Type 0 where
  pub same_run : SameRun s t
  pub forward : s.last_monotonic_ms ≤ t.last_monotonic_ms
  pub attempts : s.budgets.attempts ≤ t.budgets.attempts

-- Whatever events arrive, and whichever plans are persisted, the identities of the run stay, and
-- its clock and its attempt count never go back.
pub apply_events-Later :
    (p : Platform) (s : Snapshot) (es : List (Event × Bool)) → Later s (apply_events p s es)
apply_events-Later p s es =
    apply_events-keeps p (Later s)
      (λ t e u a l.
        let m = Accepted-Moves a in
        let here = l.same_run in
        let there = m.same_run in
        record {
          same_run = record {
            schema = there.schema ∙ here.schema;
            request = there.request ∙ here.request;
            configuration = there.configuration ∙ here.configuration;
            journal = there.journal ∙ here.journal;
            nonce = there.nonce ∙ here.nonce;
            declared = there.declared ∙ here.declared;
          };
          forward = omega (arith, l.forward, m.forward);
          attempts = omega (arith, l.attempts, m.attempts);
        })
      s es
      (record {
        same_run = record {
          schema = refl;
          request = refl;
          configuration = refl;
          journal = refl;
          nonce = refl;
          declared = refl;
        };
        forward = omega arith;
        attempts = omega arith;
      })
