-- ===== src/Acquisition/Machine/Runs/Pages.antt =====
-- Proofs on pages over runs: ordinals, continuations and budgets.
use peas_engine.Prelude.{ℕ, ◌+◌, ◌≤◌, ◌≡◌, ◌≢◌, refl, Bool, true, false, List, arith, String}
use peas_engine.Digest.{Platform}
use peas_engine.Acquisition.Identity.{PageChainInput}
use peas_engine.Acquisition.Machine.{
  State, Snapshot, Event, Kind, transitions, includes_state, event_target, checkpointing,
  chain_complete, normalizing, ready_for_selection, selecting, completed, declared,
}
use peas_engine.Acquisition.Machine.Validate.{is_some}
use peas_engine.Acquisition.Machine.Valid.{
  InBudget, validate_snapshot-IsValid, validate_budgets-InBudget,
}
use peas_engine.Acquisition.Machine.Step.{
  dispatched, continued, checkpointed, with_facts, admission_mismatch,
}
use peas_engine.Acquisition.Machine.Run.{initial_snapshot, apply_events}
use peas_engine.Acquisition.Machine.Facts.{
  Effect, moved, is_plain, derive_acquisition_transition-Derived,
}
use peas_engine.Acquisition.Machine.Runs.{apply_events-keeps, apply_events-transitions}

-- The states behind the last page.
abbrev pub is_past_chain : State → Bool
is_past_chain chain_complete = true
is_past_chain normalizing = true
is_past_chain ready_for_selection = true
is_past_chain selecting = true
is_past_chain completed = true
is_past_chain _ = false

-- The states in which the current page is admitted.
abbrev pub is_past_page : State → Bool
is_past_page checkpointing = true
is_past_page s = is_past_chain s

-- The pages admitted so far, against the ordinal of the current page.
pub record IsPaged (s : Snapshot) : Type 0 where
  pub in_order : s.page_ordinal ≤ s.budgets.successful_pages
  pub admitted :
      is_past_page s.current_state ≡ true → s.page_ordinal + 1 ≤ s.budgets.successful_pages
  pub continuing :
      is_some s.continuation_authority ≡ true → s.page_ordinal + 1 ≤ s.budgets.successful_pages
  pub last : is_past_chain s.current_state ≡ true → is_some s.continuation_authority ≡ false

past_chain_edge :
    (from to : State)
    → includes_state (transitions from) to ≡ true
    → is_past_chain to ≡ true
    → to ≢ chain_complete
    → is_past_chain from ≡ true
unfolding transitions
past_chain_edge declared to h past new = ground arith
past_chain_edge _ to h past new = ground arith

past_page_edge :
    (from to : State)
    → includes_state (transitions from) to ≡ true
    → is_past_page to ≡ true
    → to ≢ checkpointing
    → is_past_page from ≡ true
unfolding transitions
past_page_edge declared to h past new = ground arith
past_page_edge _ to h past new = ground arith

plain_target :
    (k : Kind)
    → is_plain k ≡ true
    → (event_target k ≢ checkpointing) × (event_target k ≢ chain_complete)
unfolding event_target
plain_target Kind.begin_preflight ek = ground arith
plain_target _ ek = ground arith

mismatch-pages :
    (s : Snapshot) (input : PageChainInput)
    → admission_mismatch s input ≡ false
    → input.cumulative_successful_pages ≡ s.budgets.successful_pages + 1
unfolding admission_mismatch
mismatch-pages s input h = ground arith

module _ {p : Platform} {s : Snapshot} (e : Event) (i : IsPaged s) where
  Effect-IsPaged :
      {k : Kind} {t : Snapshot}
      → event_target e.kind ≡ event_target k
      → includes_state (transitions s.current_state) (event_target e.kind) ≡ true
      → Effect p s e.proof (moved s e) k t
      → IsPaged t
  unfolding dispatched continued checkpointed with_facts event_target
  Effect-IsPaged same edge (Effect.plain k ek) =
      let (no_page, no_chain) = plain_target k ek in
      record {
        in_order = i.in_order;
        admitted = λ past.
            i.admitted
              (past_page_edge s.current_state (event_target e.kind) edge past (rw same no_page));
        continuing = i.continuing;
        last = λ past.
            i.last
              (past_chain_edge s.current_state (event_target e.kind) edge past (rw same no_chain));
      }
  Effect-IsPaged same edge (Effect.checkpoint input material admission matched planned) =
      let pages = mismatch-pages s input matched in
      record {
        in_order = omega (arith, i.in_order);
        admitted = λ past. omega (arith, i.in_order);
        continuing = λ more. omega (arith, i.in_order);
        last = λ past. absurd (ground arith);
      }
  Effect-IsPaged same edge (Effect.continuation authority token page found fresh) = record {
    in_order = i.continuing (rw found refl);
    admitted = λ past. absurd (ground arith);
    continuing = λ more. absurd (ground arith);
    last = λ past. refl;
  }
  Effect-IsPaged same edge (Effect.last_page none_left) = record {
    in_order = i.in_order;
    admitted = λ past.
        i.admitted
          (past_page_edge s.current_state (event_target e.kind) edge past (λ here. ground arith));
    continuing = i.continuing;
    last = λ past. none_left;
  }
  Effect-IsPaged same edge _ = record {
    in_order = i.in_order;
    admitted = λ past.
        i.admitted
          (past_page_edge s.current_state (event_target e.kind) edge past (λ here. ground arith));
    continuing = i.continuing;
    last = λ past.
        i.last
          (past_chain_edge s.current_state (event_target e.kind) edge past (λ here. ground arith));
  }

-- In every run from a new snapshot, the ordinal of the page is at most the number of pages
-- admitted, and below it once the page is admitted or a continuation is held; and behind the last
-- page, up to `completed`, no continuation is held.
pub apply_events-IsPaged :
    (p : Platform) (request configuration journal nonce : String) (declared_ms : ℕ) (page : String)
    (es : List (Event × Bool))
    → IsPaged
        (apply_events p (initial_snapshot request configuration journal nonce declared_ms page) es)
unfolding initial_snapshot
apply_events-IsPaged p request configuration journal nonce declared_ms page es =
    apply_events-keeps p IsPaged (λ s e t a i. Effect-IsPaged e i refl a.edge a.effect) _ es
      (record {
        in_order = omega arith;
        admitted = λ past. absurd (ground arith);
        continuing = λ more. absurd (ground arith);
        last = λ past. refl;
      })

-- A run keeps the budgets: from a snapshot within them, whatever events arrive, at most 16 pages,
-- 64 MiB, 160000 records, 160000 facts and 48 attempts, 3 for the page, on a clock that is a safe
-- integer and not before the declaration of the acquisition.
pub apply_events-InBudget :
    (p : Platform) (s : Snapshot) (es : List (Event × Bool))
    → InBudget s
    → InBudget (apply_events p s es)
apply_events-InBudget p s es i =
    apply_events-transitions p InBudget
      (λ t e plan h j.
        let d = derive_acquisition_transition-Derived p t e plan h in
        validate_budgets-InBudget plan.next
          (validate_snapshot-IsValid p plan.next d.valid_next).budgets)
      s es i
