-- ===== src/Acquisition/Machine/Termination.antt =====
-- Proofs on the number of times that the machine advances.
use peas_engine.Prelude.{
  ℕ, suc, ◌+◌, ◌-◌, ◌*◌, ◌≤◌, ◌<◌, ◌≡◌, refl, Bool, true, false, ◌&&◌, ◌⊎◌, inl, inr, List, [], ◌∷◌,
  ok, is_ok, arith, Result-cases, ap, if◌then◌else◌,
}
use peas_engine.Digest.{Platform}
use peas_engine.Acquisition.Machine.{Snapshot, Event, event_target}
use peas_engine.Acquisition.Machine.Run.{Plan, derive_acquisition_transition, apply_event}
use peas_engine.Acquisition.Machine.Facts.{derive_acquisition_transition-Derived}
use peas_engine.Acquisition.Machine.Frame.{attempt_count, Accepted-Moves}
use peas_engine.Acquisition.Machine.Graph.{rank, rank-le, edge_rank, target_attempt}
use peas_engine.Acquisition.Machine.Valid.{validate_snapshot-IsValid, validate_budgets-InBudget}

-- Attempts left, and how far the state is from the end of its round.
abbrev pub remaining : Snapshot → ℕ
remaining s = 20 * (48 - s.budgets.attempts) + rank s.current_state

falls :
    (a b c r r' : ℕ)
    → b ≡ a + c
    → b ≤ 48
    → r' ≤ 16
    → (r' < r) ⊎ (c ≡ 1)
    → 20 * (48 - b) + r' < 20 * (48 - a) + r
falls a b c r r' e le top (inl down) = omega arith
falls a b c r r' e le top (inr one) = omega arith

remaining-falls :
    (p : Platform) (s : Snapshot) (e : Event) (plan : Plan)
    → derive_acquisition_transition p s e ≡ ok plan
    → remaining plan.next < remaining s
remaining-falls p s e plan h =
    let d = derive_acquisition_transition-Derived p s e plan h in
    let m = Accepted-Moves d.accepted in
    let after =
      validate_budgets-InBudget plan.next
        (validate_snapshot-IsValid p plan.next d.valid_next).budgets in
    let step : (rank plan.next.current_state < rank s.current_state) ⊎ (attempt_count e.kind ≡ 1) =
      rw m.state (elim (edge_rank s.current_state (event_target e.kind) d.accepted.edge) [
        | inl down ↦ inl down
        | inr attempt ↦ inr (target_attempt e.kind attempt)
      ]) in
    falls s.budgets.attempts plan.next.budgets.attempts (attempt_count e.kind)
      (rank s.current_state) (rank plan.next.current_state) m.attempts after.attempts
      (rank-le plan.next.current_state) step

-- Whether the machine advances on an event: the reducer accepts it and the plan is persisted.
abbrev pub advances : Platform → Snapshot → Event × Bool → Bool
advances p s (e, persisted) = persisted && is_ok (derive_acquisition_transition p s e)

-- How often the machine advances over a sequence of events.
pub count_advances : Platform → Snapshot → List (Event × Bool) → ℕ
count_advances p s [] = 0
count_advances p s (e ∷ es) =
    let rest = count_advances p (apply_event p s e) es in if advances p s e then suc rest else rest

advance_step :
    (p : Platform) (s : Snapshot) (e : Event × Bool)
    → ((advances p s e ≡ true) × (remaining (apply_event p s e) < remaining s))
      ⊎ ((advances p s e ≡ false) × (apply_event p s e ≡ s))
unfolding apply_event
advance_step p s (e, false) = elim (Result-cases (derive_acquisition_transition p s e)) [
  | inl (plan, h) ↦ inr (refl, rw h refl)
  | inr (message, h) ↦ inr (refl, rw h refl)
]
advance_step p s (e, true) = elim (Result-cases (derive_acquisition_transition p s e)) [
  | inl (plan, h) ↦ inl (rw h refl, rw h (remaining-falls p s e plan h))
  | inr (message, h) ↦ inr (rw h refl, rw h refl)
]

-- From any snapshot, over any sequence of events and of persistence outcomes, the machine advances at
-- most 20 times for each attempt left of the budget of 48, and 16 times more.
pub count_advances-bound :
    (p : Platform) (s : Snapshot) (es : List (Event × Bool)) → count_advances p s es ≤ remaining s
unfolding count_advances
count_advances-bound p s [] = omega arith
count_advances-bound p s (e ∷ es) = elim (advance_step p s e) [
  | inl (yes', less) ↦ rw yes' (omega (arith, count_advances-bound p (apply_event p s e) es))
  | inr (no', same) ↦
      rw no' (omega (arith, count_advances-bound p (apply_event p s e) es, ap remaining same))
]
