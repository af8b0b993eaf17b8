-- ===== src/Clock.antt =====
-- core/clock.ts: ManualClock. A number that is no integer, or a negative one, makes the source throw, and
-- is no value here; SystemClock reads the time of the machine.
mod Tests
use peas_engine.Prelude.{
  ℕ, ◌+◌, ◌≤◌, ◌≡◌, refl, sym, ap, ◌∙◌, List, [], ◌∷◌, Result, ok, ◌>>=◌, ◌>>◌, >>=-eq-ok, guard,
  guard-eq-ok, fail_if, fail_if-eq-ok, leb, leb→le, ltb, not_ltb→le, ok_injective, arith,
}
use peas_engine.Json.{max_safe}

-- The fields of ManualClock.
pub record ManualClock : Type 0 where
  pub initial_ms : ℕ
  pub current_ms : ℕ

-- assertEpochMs
abbrev assert_epoch_ms : ℕ → Result (Unit {0})
assert_epoch_ms n = guard (leb n max_safe) "Clock values must be safe integer milliseconds"

-- The constructor.
unfoldable pub create_clock : ℕ → Result ManualClock
create_clock initial = do
  assert_epoch_ms initial
  ok (record { initial_ms = initial; current_ms = initial })

-- advanceTo
unfoldable pub advance_to : ManualClock → ℕ → Result ManualClock
advance_to c next = do
  assert_epoch_ms next
  fail_if (ltb next c.current_ms) "A manual clock cannot move backwards"
  ok (record c { current_ms = next })

-- advanceBy
unfoldable pub advance_by : ManualClock → ℕ → Result ManualClock
unfolding advance_to
advance_by c delta = do
  guard (leb delta max_safe) "Clock deltas must be safe integers"
  advance_to c (c.current_ms + delta)

-- reset
unfoldable pub reset : ManualClock → ManualClock
reset c = record c { current_ms = c.initial_ms }

-- The calls that change a clock.
pub data ClockCall : Type 0 where
  to : ℕ → ClockCall
  by : ℕ → ClockCall
  back : ClockCall

unfoldable pub call_clock : ManualClock → ClockCall → Result ManualClock
unfolding advance_to advance_by reset
call_clock c (to n) = advance_to c n
call_clock c (by n) = advance_by c n
call_clock c back = ok (reset c)

unfoldable pub run_clock : ManualClock → List ClockCall → Result ManualClock
unfolding call_clock
run_clock c [] = ok c
run_clock c (call ∷ calls) = call_clock c call >>= λ c'. run_clock c' calls

-- The clock is at its start or later, at a safe integer.
pub record IsClock (initial : ℕ) (c : ManualClock) : Type 0 where
  pub started : c.initial_ms ≡ initial
  pub later : initial ≤ c.current_ms
  pub safe : c.current_ms ≤ max_safe

advance_to-IsClock :
    (initial : ℕ) (c c' : ManualClock) (n : ℕ)
    → IsClock initial c
    → advance_to c n ≡ ok c'
    → IsClock initial c'
unfolding advance_to
advance_to-IsClock initial c c' n is h =
    let (_, safe, h₁) =
      >>=-eq-ok (guard (leb n max_safe) "Clock values must be safe integer milliseconds") _ h in
    let (_, onward, h₂) =
      >>=-eq-ok (fail_if (ltb n c.current_ms) "A manual clock cannot move backwards") _ h₁ in
    let same = ok_injective h₂ in
    let at : c'.current_ms ≡ n = ap (λ x. x.current_ms) same in
    record {
      started = ap (λ x. x.initial_ms) same ∙ is.started;
      later = omega (arith, at, is.later, not_ltb→le n c.current_ms (fail_if-eq-ok _ _ onward));
      safe = omega (arith, at, leb→le n max_safe (guard-eq-ok _ _ safe));
    }

call_clock-IsClock :
    (initial : ℕ) (c c' : ManualClock) (call : ClockCall)
    → IsClock initial c
    → call_clock c call ≡ ok c'
    → IsClock initial c'
unfolding call_clock advance_by reset
call_clock-IsClock initial c c' (to n) is h = advance_to-IsClock initial c c' n is h
call_clock-IsClock initial c c' (by n) is h =
    let (_, _, h₁) = >>=-eq-ok (guard (leb n max_safe) "Clock deltas must be safe integers") _ h in
    advance_to-IsClock initial c c' (c.current_ms + n) is h₁
call_clock-IsClock initial c c' back is h =
    let same = ok_injective h in
    let at : c'.current_ms ≡ c.initial_ms = ap (λ x. x.current_ms) same in
    record {
      started = ap (λ x. x.initial_ms) same ∙ is.started;
      later = omega (arith, at, is.started);
      safe = omega (arith, at, is.started, is.later, is.safe);
    }

run_clock-keeps :
    (initial : ℕ) (c c' : ManualClock) (calls : List ClockCall)
    → IsClock initial c
    → run_clock c calls ≡ ok c'
    → IsClock initial c'
unfolding run_clock
run_clock-keeps initial c c' [] is h = rw (ok_injective h) is
run_clock-keeps initial c c' (call ∷ calls) is h =
    let (c₁, called, h₁) = >>=-eq-ok (call_clock c call) _ h in
    run_clock-keeps initial c₁ c' calls (call_clock-IsClock initial c c₁ call is called) h₁

-- A manual clock that was created at a time, after any calls of advanceTo, advanceBy and reset that do not
-- throw, is at that time or later, never past the largest safe integer, and still resets to that time.
pub run_clock-IsClock :
    (initial : ℕ) (c c' : ManualClock) (calls : List ClockCall)
    → create_clock initial ≡ ok c
    → run_clock c calls ≡ ok c'
    → IsClock initial c'
unfolding create_clock
run_clock-IsClock initial c c' calls created h =
    let (_, safe, h₁) =
      >>=-eq-ok (guard (leb initial max_safe) "Clock values must be safe integer milliseconds") _
        created in
    let same = ok_injective h₁ in
    let at : c.current_ms ≡ initial = ap (λ x. x.current_ms) same in
    run_clock-keeps initial c c' calls
      (record {
        started = ap (λ x. x.initial_ms) same;
        later = omega (arith, at);
        safe = omega (arith, at, leb→le initial max_safe (guard-eq-ok _ _ safe));
      })
      h
