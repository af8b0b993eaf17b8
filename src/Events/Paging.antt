-- ===== src/Events/Paging.antt =====
-- Reading the log page by page, and opening a captured stream.
use peas_engine.Prelude.{
  ℕ, zero, suc, ◌+◌, ◌≤◌, ◌≡◌, refl, sym, ◌∙◌, ap, String, List, [], ◌∷◌, ◌++◌, some, ok, guard,
  ltb, ◌==◌, length, take, drop, length-take, arith, >>=-eq-ok, guard-eq-ok, ok_injective,
}
use peas_engine.Digest.{Platform}
use peas_engine.Events.{StoredEvent}
use peas_engine.Events.Digests.{verify_stored_event, verify_event_page}
use peas_engine.Events.Log.{
  last_event, genesis_hash, EventPage, position_or, read_after, check_captured, open_captured,
}
use peas_engine.Events.Chain.{IsChain}

-- Positions that count up from a number.
abbrev pub IsNumbered : ℕ → List StoredEvent → Type 0
IsNumbered n [] = Unit
IsNumbered n (e ∷ es) = (e.position ≡ n) × IsNumbered (n + 1) es

pub IsChain-IsNumbered :
    (p : Platform) (n : ℕ) (previous : String) (low : ℕ) (es : List StoredEvent)
    → IsChain p n previous low es
    → IsNumbered n es
IsChain-IsNumbered p n previous low [] c = tt
IsChain-IsNumbered p n previous low (e ∷ es) c =
    let link = c.0 in
    (link.at_position, IsChain-IsNumbered p (n + 1) e.event_hash e.captured.logical_at_ms es c.1)

pub IsNumbered-cast :
    {n n' : ℕ} (es : List StoredEvent) → n ≡ n' → IsNumbered n es → IsNumbered n' es
IsNumbered-cast es e h = rw (sym e) h

pub IsNumbered-drop :
    (n c : ℕ) (es : List StoredEvent) → IsNumbered n es → IsNumbered (n + c) (drop c es)
IsNumbered-drop n zero es h = IsNumbered-cast es (omega arith) h
IsNumbered-drop n (suc c) [] h = tt
IsNumbered-drop n (suc c) (e ∷ es) h =
    IsNumbered-cast (drop c es) (omega arith) (IsNumbered-drop (n + 1) c es h.1)

pub IsNumbered-take : (n k : ℕ) (es : List StoredEvent) → IsNumbered n es → IsNumbered n (take k es)
IsNumbered-take n zero es h = tt
IsNumbered-take n (suc k) [] h = tt
IsNumbered-take n (suc k) (e ∷ es) h = (h.0, IsNumbered-take (n + 1) k es h.1)

position_or-start :
    (m n : ℕ) (e : StoredEvent) (es : List StoredEvent)
    → position_or m (last_event (e ∷ es)) ≡ position_or n (last_event (e ∷ es))
unfolding last_event
position_or-start m n e [] = refl
position_or-start m n e (f ∷ es) = position_or-start m n f es

position_or-last :
    (n : ℕ) (es : List StoredEvent)
    → IsNumbered (n + 1) es
    → position_or n (last_event es) ≡ n + length es
unfolding last_event
position_or-last n [] h = omega arith
position_or-last n (e ∷ []) h = omega (arith, h.0)
position_or-last n (e ∷ f ∷ es) h =
    omega (arith, position_or-start n (n + 1) f es, position_or-last (n + 1) (f ∷ es) h.1)

drop-nil : (n : ℕ) → ◌≡◌ {A = List StoredEvent} (drop n []) []
drop-nil zero = refl
drop-nil (suc n) = refl

drop-cast : (n m : ℕ) (es : List StoredEvent) → n ≡ m → drop n es ≡ drop m es
drop-cast n m es e = ap (λ k. drop k es) e

pub drop-drop : (c k : ℕ) (es : List StoredEvent) → drop k (drop c es) ≡ drop (c + k) es
drop-drop zero k es = drop-cast k (0 + k) es (omega arith)
drop-drop (suc c) k [] = drop-nil k ∙ sym (drop-nil (suc c + k))
drop-drop (suc c) k (e ∷ es) =
    drop-drop c k es ∙ drop-cast (suc (c + k)) (suc c + k) (e ∷ es) (omega arith)

-- Taking the first k and then going on where they end loses nothing.
pub take_then_drop :
    (k : ℕ) (es : List StoredEvent) → take k es ++ drop (length (take k es)) es ≡ es
take_then_drop zero es = refl
take_then_drop (suc k) [] = refl
take_then_drop (suc k) (e ∷ es) = ap (λ t. e ∷ t) (take_then_drop k es)

-- The page at a cursor of events numbered from 1.
pub read_after-numbered :
    (events : List StoredEvent) (cursor limit : ℕ)
    → IsNumbered 1 events
    → 1 ≤ limit
    → limit ≤ 10000
    → read_after events cursor limit
      ≡ ok (record {
        events = take limit (drop cursor events);
        next_position = cursor + length (take limit (drop cursor events));
        has_more = ltb (cursor + length (take limit (drop cursor events))) (length events);
      })
unfolding read_after
read_after-numbered events cursor limit all one most =
    let selected = take limit (drop cursor events) in
    let numbered =
      IsNumbered-take (1 + cursor) limit (drop cursor events)
        (IsNumbered-drop 1 cursor events all) in
    let next : position_or cursor (last_event selected) ≡ cursor + length selected =
      position_or-last cursor selected (IsNumbered-cast selected (omega arith) numbered) in
    ground (arith, next)

-- On events numbered from 1, readAfter with a limit from 1 to 10000 returns a page from every cursor. It has at most
-- `limit` events, its next position is the cursor and their number, its events followed by all from
-- the next position are all from the cursor, and it says that there is more just when the next
-- position is before the last.
pub read_after-page :
    (events : List StoredEvent) (cursor limit : ℕ)
    → IsNumbered 1 events
    → 1 ≤ limit
    → limit ≤ 10000
    → (page : EventPage) × (read_after events cursor limit ≡ ok page)
      × (length page.events ≤ limit)
      × (page.next_position ≡ cursor + length page.events)
      × (page.events ++ drop page.next_position events ≡ drop cursor events)
      × (page.has_more ≡ ltb page.next_position (length events))
read_after-page events cursor limit numbered one most =
    let rest = drop cursor events in
    let selected = take limit rest in
    (
      record {
        events = selected;
        next_position = cursor + length selected;
        has_more = ltb (cursor + length selected) (length events);
      },
      read_after-numbered events cursor limit numbered one most,
      omega (arith, length-take limit rest),
      refl,
      ap (λ t. selected ++ t) (sym (drop-drop cursor (length selected) events))
          ∙ take_then_drop limit rest,
      refl,
    )

check_captured-verified :
    (p : Platform) (n : ℕ) (previous : String) (es : List StoredEvent)
    → check_captured p n previous es ≡ ok tt
    → IsNumbered n es × ((h : String) × (verify_event_page p es previous ≡ ok h))
unfolding check_captured verify_event_page
check_captured-verified p n previous [] h = (tt, (previous, refl))
check_captured-verified p n previous (e ∷ es) h =
    let (_, at, h₁) = >>=-eq-ok (guard (e.position == n) "Captured stream position gap") _ h in
    let (_, verified, h₂) = >>=-eq-ok (verify_stored_event p e (some previous)) _ h₁ in
    let (numbered, (last, rest)) = check_captured-verified p (n + 1) e.event_hash es h₂ in
    let position : e.position ≡ n = ground (arith, guard-eq-ok _ _ at) in
    ((position, numbered), (last, rw verified rest))

-- A stream that the captured log opens is numbered from 1, and verifies as one page from the
-- genesis digest.
pub open_captured-verified :
    (p : Platform) (es es' : List StoredEvent)
    → open_captured p es ≡ ok es'
    → (es' ≡ es) × IsNumbered 1 es × ((h : String) × (verify_event_page p es genesis_hash ≡ ok h))
unfolding open_captured
open_captured-verified p es es' h =
    let (_, checked, h₁) = >>=-eq-ok (check_captured p 1 genesis_hash es) _ h in
    let (numbered, verified) = check_captured-verified p 1 genesis_hash es checked in
    (ok_injective h₁, numbered, verified)
