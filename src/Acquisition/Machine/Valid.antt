-- ===== src/Acquisition/Machine/Valid.antt =====
-- What validateSnapshot establishes, part by part.
use peas_engine.Prelude.{
  ℕ, ◌≤◌, ◌≡◌, false, not, ◌&&◌, List, [], ◌∷◌, ok, arith, All, length, >>=-eq-ok,
}
use peas_engine.Json.{max_safe}
use peas_engine.Digest.{Platform}
use peas_engine.Acquisition.Quota.Sorting.{IsSorted}
use peas_engine.Acquisition.Machine.{Snapshot, is_terminal, completed, same_state}
use peas_engine.Acquisition.Machine.Validate.{
  validate_snapshot, validate_header, validate_page, validate_attempt, validate_budgets,
  validate_evidence, validate_tokens, validate_terminal, has_bad_start, is_some,
}

pub record IsValid (p : Platform) (s : Snapshot) : Type 0 where
  pub header : validate_header s ≡ ok tt
  pub page : validate_page p s ≡ ok tt
  pub attempt : validate_attempt p s s.attempt_ordinal ≡ ok tt
  pub budgets : validate_budgets s ≡ ok tt
  pub evidence : validate_evidence s ≡ ok tt
  pub tokens : validate_tokens s ≡ ok tt
  pub terminal : validate_terminal s ≡ ok tt

pub validate_snapshot-IsValid :
    (p : Platform) (s : Snapshot) → validate_snapshot p s ≡ ok tt → IsValid p s
unfolding validate_snapshot
validate_snapshot-IsValid p s h =
    let (_, header, h₁) = >>=-eq-ok (validate_header s) _ h in
    let (_, page, h₂) = >>=-eq-ok (validate_page p s) _ h₁ in
    let (_, attempt, h₃) = >>=-eq-ok (validate_attempt p s s.attempt_ordinal) _ h₂ in
    let (_, budgets, h₄) = >>=-eq-ok (validate_budgets s) _ h₃ in
    let (_, evidence, h₅) = >>=-eq-ok (validate_evidence s) _ h₄ in
    let (_, tokens, h₆) = >>=-eq-ok (validate_tokens s) _ h₅ in
    record {
      header = header;
      page = page;
      attempt = attempt;
      budgets = budgets;
      evidence = evidence;
      tokens = tokens;
      terminal = h₆;
    }

pub record InBudget (s : Snapshot) : Type 0 where
  pub page_attempts : s.page_attempts_started ≤ 3
  pub pages : s.budgets.successful_pages ≤ 16
  pub bytes : s.budgets.verified_bytes ≤ 67108864
  pub records : s.budgets.records ≤ 160000
  pub facts : s.budgets.normalized_facts ≤ 160000
  pub attempts : s.budgets.attempts ≤ 48
  pub forward : s.acquisition_declared_monotonic_ms ≤ s.last_monotonic_ms
  pub clock_safe : s.last_monotonic_ms ≤ max_safe

pub validate_budgets-InBudget : (s : Snapshot) → validate_budgets s ≡ ok tt → InBudget s
unfolding validate_budgets
validate_budgets-InBudget s h = ground arith

All-ge_trans : (a b : ℕ) (ts : List ℕ) → a ≤ b → All (λ t. b ≤ t) ts → All (λ t. a ≤ t) ts
All-ge_trans a b [] le h = tt
All-ge_trans a b (t ∷ ts) le h = (omega arith, All-ge_trans a b ts le h.1)

good_starts :
    (low high previous : ℕ) (ts : List ℕ)
    → has_bad_start low high previous ts ≡ false
    → All (λ t. previous ≤ t) ts × IsSorted ts × All (λ t. t ≤ high) ts × All (λ t. low ≤ t) ts
unfolding has_bad_start
good_starts low high previous [] h = (tt, tt, tt, tt)
good_starts low high previous (t ∷ ts) h =
    let rest : has_bad_start low high t ts ≡ false = ground arith in
    let (after, sorted, before, from) = good_starts low high t ts rest in
    let le : previous ≤ t = ground arith in
    let le' : t ≤ high = ground arith in
    let le'' : low ≤ t = ground arith in
    ((le, All-ge_trans previous t ts le after), (after, sorted), (le', before), (le'', from))

-- The quota evidence: one start for each attempt, ascending, within the run so far.
pub record IsEvidence (s : Snapshot) : Type 0 where
  pub counted : length s.quota_window_evidence ≡ s.budgets.attempts
  pub sorted : IsSorted s.quota_window_evidence
  pub past : All (λ t. t ≤ s.last_monotonic_ms) s.quota_window_evidence
  pub started : All (λ t. s.acquisition_declared_monotonic_ms ≤ t) s.quota_window_evidence

pub validate_evidence-IsEvidence : (s : Snapshot) → validate_evidence s ≡ ok tt → IsEvidence s
unfolding validate_evidence
validate_evidence-IsEvidence s h =
    let good : has_bad_start s.acquisition_declared_monotonic_ms s.last_monotonic_ms 0
          s.quota_window_evidence
        ≡ false =
      ground arith in
    let (_, sorted, past, started) = good_starts _ _ 0 s.quota_window_evidence good in
    record { counted = ground arith; sorted = sorted; past = past; started = started }

-- A terminal state other than `completed` has a reason, and no other state has one.
pub validate_terminal-reason :
    (s : Snapshot)
    → validate_terminal s ≡ ok tt
    → (is_terminal s.current_state && not (same_state s.current_state completed))
      ≡ is_some s.terminal_reason
unfolding validate_terminal
validate_terminal-reason s h = ground arith
