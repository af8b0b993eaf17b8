-- ===== src/Processor/Process/Verified.antt =====
-- #verifyProcessedSuffix on a log whose events verify in a chain.
use peas_engine.Prelude.{
  ℕ, zero, suc, ◌+◌, ◌-◌, ◌≤◌, ◌<◌, min, ◌≡◌, refl, sym, ap, ◌∙◌, String, true, false, Bool-cases,
  inl, inr, List, [], ◌∷◌, some, Result, ok, ◌>>=◌, >>=-eq-ok, guard, guard-eq-ok, fail_if, ltb,
  ltb→lt, not_ltb→le, ◌==◌, ==_iff, length, take, drop, length-take, length-drop, get_elem?,
  if◌then◌else◌, arith,
}
use peas_engine.Digest.{Platform}
use peas_engine.Events.{StoredEvent}
use peas_engine.Events.Digests.{verify_stored_event}
use peas_engine.Events.Log.{EventPage, check_captured, read_after}
use peas_engine.Events.Paging.{IsNumbered, read_after-numbered}
use peas_engine.Processor.{RunCursor}
use peas_engine.Processor.Process.{is_none_left, verify_suffix_page, verify_suffix_loop}

-- Events at the positions from a number on, each of which verifies after the digest of the one before.
abbrev pub IsVerified : Platform → ℕ → String → List StoredEvent → Type 0
IsVerified p n previous [] = Unit
IsVerified p n previous (e ∷ es) =
    (e.position ≡ n)
    × (verify_stored_event p e (some previous) ≡ ok tt)
    × IsVerified p (suc n) e.event_hash es

-- The digest before the i-th event of a list.
abbrev pub hash_at : String → List StoredEvent → ℕ → String
hash_at previous es zero = previous
hash_at previous [] (suc i) = previous
hash_at previous (e ∷ es) (suc i) = hash_at e.event_hash es i

IsVerified-cast :
    (p : Platform) {n n' : ℕ} (h : String) (es : List StoredEvent)
    → n ≡ n'
    → IsVerified p n h es
    → IsVerified p n' h es
IsVerified-cast p h es e v = rw (sym e) v

pub check_captured-IsVerified :
    (p : Platform) (n : ℕ) (previous : String) (es : List StoredEvent)
    → check_captured p n previous es ≡ ok tt
    → IsVerified p n previous es
unfolding check_captured
check_captured-IsVerified p n previous [] h = tt
check_captured-IsVerified p n previous (e ∷ es) h =
    let (_, at, h₁) = >>=-eq-ok (guard (e.position == n) "Captured stream position gap") _ h in
    let (_, verified, h₂) = >>=-eq-ok (verify_stored_event p e (some previous)) _ h₁ in
    (
      (==_iff e.position n).0 (guard-eq-ok (e.position == n) _ at),
      verified,
      IsVerified-cast p e.event_hash es (omega arith)
          (check_captured-IsVerified p (n + 1) e.event_hash es h₂),
    )

pub IsVerified-IsNumbered :
    (p : Platform) (n : ℕ) (previous : String) (es : List StoredEvent)
    → IsVerified p n previous es
    → IsNumbered n es
IsVerified-IsNumbered p n previous [] v = tt
IsVerified-IsNumbered p n previous (e ∷ es) v = (
  v.0,
  IsVerified-IsNumbered p (n + 1) e.event_hash es
      (IsVerified-cast p e.event_hash es (omega arith) v.2),
)

IsVerified-drop :
    (p : Platform) (n m : ℕ) (previous : String) (es : List StoredEvent)
    → m ≤ length es
    → IsVerified p n previous es
    → IsVerified p (n + m) (hash_at previous es m) (drop m es)
IsVerified-drop p n zero previous es le v = IsVerified-cast p previous es (omega arith) v
IsVerified-drop p n (suc m) previous [] le v = tt
IsVerified-drop p n (suc m) previous (e ∷ es) le v =
    IsVerified-cast p (hash_at e.event_hash es m) (drop m es) (omega arith)
      (IsVerified-drop p (suc n) m e.event_hash es (omega (arith, le)) v.2)

hash_at-drop :
    (previous : String) (es : List StoredEvent) (m j : ℕ)
    → m ≤ length es
    → hash_at (hash_at previous es m) (drop m es) j ≡ hash_at previous es (m + j)
hash_at-drop previous es zero j le = ap (hash_at previous es) {y = 0 + j} (omega arith)
hash_at-drop previous [] (suc m) j le = elim le [ ]
hash_at-drop previous (e ∷ es) (suc m) j le =
    let same : suc m + j ≡ suc (m + j) = omega arith in
    hash_at-drop e.event_hash es m j (omega (arith, le))
    ∙ ap (λ k. hash_at previous (e ∷ es) k) (sym same)

-- An event of the list verifies after the digest before it, and its own is the next.
pub IsVerified-get :
    (p : Platform) (n : ℕ) (previous : String) (es : List StoredEvent) (i : ℕ) (e : StoredEvent)
    → IsVerified p n previous es
    → get_elem? es i ≡ some e
    → (e.position ≡ n + i)
      × (verify_stored_event p e (some (hash_at previous es i)) ≡ ok tt)
      × (hash_at previous es (suc i) ≡ e.event_hash)
      × (i < length es)
IsVerified-get p n previous [] i e v h = cc
IsVerified-get p n previous (f ∷ es) zero e v h =
    let same : e ≡ f = cc in
    (
      ap (λ x. x.position) same ∙ v.0 ∙ omega arith,
      ap (λ x. verify_stored_event p x (some previous)) same ∙ v.1,
      ap (λ x. x.event_hash) (sym same),
      omega arith,
    )
IsVerified-get p n previous (f ∷ es) (suc i) e v h =
    let (position, verified, hash, le) = IsVerified-get p (suc n) f.event_hash es i e v.2 h in
    (omega (arith, position), verified, hash, omega (arith, le))

-- A page of such events passes.
pub verify_suffix_page-passes :
    (p : Platform) (k m : ℕ) (h : String) (es : List StoredEvent)
    → IsVerified p (m + 1) h es
    → verify_suffix_page p (take k es) m h
      ≡ ok (m + length (take k es), hash_at h es (length (take k es)))
unfolding verify_suffix_page
verify_suffix_page-passes p zero m h es v = ap (λ n. ok (n, h)) {y = m + 0} (omega arith)
verify_suffix_page-passes p (suc k) m h [] v = ap (λ n. ok (n, h)) {y = m + 0} (omega arith)
verify_suffix_page-passes p (suc k) m h (e ∷ es) v =
    let at : (e.position == m + 1) ≡ true = (==_iff e.position (m + 1)).1 v.0 in
    let rest =
      verify_suffix_page-passes p k (m + 1) e.event_hash es
        (IsVerified-cast p e.event_hash es (omega arith) v.2) in
    let sum : m + 1 + length (take k es) ≡ m + suc (length (take k es)) = omega arith in
    ap
      (λ b. guard b "Persisted event chain position mismatch" >>= λ _.
        verify_stored_event p e (some h) >>= λ _.
        verify_suffix_page p (take k es) (m + 1) e.event_hash)
      at
    ∙ ap (λ r. r >>= λ _. verify_suffix_page p (take k es) (m + 1) e.event_hash) v.1
    ∙ rest
    ∙ ap (λ n. ok (n, hash_at e.event_hash es (length (take k es)))) sum

none_left-page :
    (p : Platform) (limit m : ℕ) (es : List StoredEvent)
    → 1 ≤ limit
    → m < length es
    → is_none_left p (take limit (drop m es)) ≡ false
none_left-page p limit m [] one low = elim low [ ]
none_left-page p (suc k) zero (e ∷ es) one low = refl
none_left-page p (suc k) (suc m) (e ∷ es) one low =
    none_left-page p (suc k) m es one (omega (arith, low))
none_left-page p zero m (e ∷ es) one low = elim one [ ]

-- The loop from a position to the cursor's passes, and ends at the cursor's position.
pub verify_suffix_loop-passes :
    (p : Platform) (events : List StoredEvent) (cursor : RunCursor) (start : String)
    → IsVerified p 1 start events
    → cursor.core.processed_position ≤ length events
    → (fuel m : ℕ) → m ≤ cursor.core.processed_position
    → cursor.core.processed_position ≤ m + fuel
    → verify_suffix_loop p fuel events cursor m (hash_at start events m)
      ≡ ok (cursor.core.processed_position, hash_at start events cursor.core.processed_position)
unfolding verify_suffix_loop
verify_suffix_loop-passes p events cursor start v within zero m le enough =
    let end : m ≡ cursor.core.processed_position = omega (arith, le, enough) in
    ap (λ n. ok (n, hash_at start events n)) end
verify_suffix_loop-passes p events cursor start v within (suc fuel) m le enough =
    let n = cursor.core.processed_position in
    let h = hash_at start events m in
    let limit = min (n - m) 1000 in
    let sel = take limit (drop m events) in
    let after : ℕ → ℕ × String → Result (ℕ × String) = λ next q.
      guard (next == q.0) "Persisted event page cursor mismatch" >>= λ _.
      verify_suffix_loop p fuel events cursor q.0 q.1 in
    let body : EventPage → Result (ℕ × String) = λ page.
      fail_if (is_none_left p page.events) "Persisted event chain ends before cursor" >>= λ _.
      verify_suffix_page p page.events m h >>= λ q. after page.next_position q in
    elim (Bool-cases (ltb m n)) [
      | inl more ↦
          (let low : m < n = ltb→lt m n more in
            let k = length sel in
            let size : k ≡ min limit (length events - m) =
              omega (arith, length-take limit (drop m events), length-drop m events) in
            let inside : m + k ≤ n = omega (arith, size, low, within) in
            let further : n ≤ m + k + fuel = omega (arith, size, low, within, enough) in
            ap (λ b. if b then (read_after events m limit >>= body) else ok (m, h)) more
            ∙ ap (λ r. r >>= body)
                (read_after-numbered events m limit (IsVerified-IsNumbered p 1 start events v)
                  (omega (arith, low)) (omega arith))
            ∙ ap
                (λ b. fail_if b "Persisted event chain ends before cursor" >>= λ _.
                  verify_suffix_page p sel m h >>= λ q. after (m + k) q)
                (none_left-page p limit m events (omega (arith, low)) (omega (arith, low, within)))
            ∙ ap (λ r. r >>= λ q. after (m + k) q)
                (verify_suffix_page-passes p limit m h (drop m events) (
                  IsVerified-cast p h (drop m events) (omega arith)
                    (IsVerified-drop p 1 m start events (omega (arith, low, within)) v)))
            ∙ ap
                (λ b. guard b "Persisted event page cursor mismatch" >>= λ _.
                  verify_suffix_loop p fuel events cursor (m + k) (hash_at h (drop m events) k))
                ((==_iff (m + k) (m + k)).1 refl)
            ∙ ap (λ x. verify_suffix_loop p fuel events cursor (m + k) x)
                (hash_at-drop start events m k (omega (arith, low, within)))
            ∙ verify_suffix_loop-passes p events cursor start v within fuel (m + k) inside further)
      | inr last ↦
          (let end : m ≡ n = omega (arith, not_ltb→le m n last, le) in
            ap (λ b. if b then (read_after events m limit >>= body) else ok (m, h)) last
            ∙ ap (λ x. ok (x, hash_at start events x)) end)
    ]
