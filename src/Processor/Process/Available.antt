-- ===== src/Processor/Process/Available.antt =====
-- processAvailable: what the loop over the pages of the log comes to.
use peas_engine.Prelude.{
  ℕ, zero, suc, ◌+◌, ◌-◌, ◌≤◌, ◌<◌, min, ltb→lt, ◌≡◌, refl, sym, ap, ◌∙◌, true, Bool-cases, inl,
  inr, List, [], ◌∷◌, ◌++◌, ok, ◌>>=◌, >>=-eq-ok, >>=-cong_ok, >>=-assoc, ok_injective,
  if◌then◌else◌, ltb, length, take, drop, drop_all, length-take, length-drop, arith,
}
use peas_engine.Digest.{Platform}
use peas_engine.Events.{StoredEvent, assert_page_limit}
use peas_engine.Events.Paging.{
  IsNumbered, IsNumbered-cast, IsNumbered-drop, IsNumbered-take, drop-drop, take_then_drop,
  read_after-numbered,
}
use peas_engine.Processor.{RunCursor}
use peas_engine.Processor.Process.{ProcessingStore, Processor, Session}
use peas_engine.Processor.Process.Run.{
  initialize, current_cursor, process_event, process, process_all, drain, process_available,
}
use peas_engine.Processor.Process.Facts.{KeepsCursor, process_event_step}

module _ {S : Type 0} (p : Platform) (api : ProcessingStore S) (d : Processor) where
  -- A session after #initialize.
  abbrev pub started : S → Session S
  started s = record { store = s; initialized = true }

  process_all-append :
      (events : List StoredEvent) (c : RunCursor) (session : Session S) (xs ys : List StoredEvent)
      → process_all p api d events c session (xs ++ ys) ≡ (
          process_all p api d events c session xs >>= λ (c', session').
          process_all p api d events c' session' ys)
  unfolding process_all
  process_all-append events c session [] ys = refl
  process_all-append events c session (e ∷ xs) ys =
      >>=-cong_ok (process p api d events session e)
        (λ (c', session'). process_all p api d events c' session' (xs ++ ys))
        (λ (c', session'). process_all p api d events c' session' xs >>= λ (c'', session'').
          process_all p api d events c'' session'' ys)
        (λ (c', session') h. process_all-append events c' session' xs ys)
      ∙ sym (
          >>=-assoc (process p api d events session e)
            (λ (c', session'). process_all p api d events c' session' xs)
            (λ (c', session'). process_all p api d events c' session' ys))

  -- Events that follow the cursor leave it at the last of them.
  process_all_step :
      KeepsCursor api
      → (events : List StoredEvent) (s : S) (es : List StoredEvent) (c c' : RunCursor)
        (session' : Session S)
      → current_cursor p api d s ≡ ok c
      → IsNumbered (c.core.processed_position + 1) es
      → process_all p api d events c (started s) es ≡ ok (c', session')
      → (s' : S) × (session' ≡ started s')
        × (current_cursor p api d s' ≡ ok c')
        × (c'.core.processed_position ≡ c.core.processed_position + length es)
  unfolding process_all process initialize
  process_all_step keeps events s [] c c' session' now numbered h =
      let same = ok_injective h in
      (
        s,
        ap (λ x. x.1) same,
        now ∙ ap (λ x. ok x.0) (sym same),
        ap (λ x. x.0.core.processed_position) same ∙ omega arith,
      )
  process_all_step keeps events s (e ∷ es) c c' session' now numbered h =
      let ((c₁, session₁), processed, h₁) = >>=-eq-ok (process p api d events (started s) e) _ h in
      let ((c₂, s₂), stepped, h₂) = >>=-eq-ok (process_event p api d events s e) _ processed in
      let same = ok_injective h₂ in
      let (position, now') =
        process_event_step p api d keeps events s s₂ e c c₂ now numbered.0 stepped in
      let cursors : c₁ ≡ c₂ = ap (λ x. x.0) same in
      let sessions : session₁ ≡ started s₂ = ap (λ x. x.1) same in
      let (s', at, current, end) =
        process_all_step keeps events s₂ es c₂ c' session' now'
          (IsNumbered-cast es (omega (arith, position)) numbered.1)
          (ap (λ x. process_all p api d events x.0 x.1 es) (sym same) ∙ h₁) in
      (s', at, current, omega (arith, end, position))

  -- What is left to do after a page whose end is at n.
  next_page :
      KeepsCursor api
      → (events : List StoredEvent) (limit fuel n : ℕ) (c : RunCursor) (s : S)
      → current_cursor p api d s ≡ ok c
      → c.core.processed_position ≡ n
      → (ltb n (length events) ≡ true
          → drain p api d fuel events limit c (started s)
            ≡ process_all p api d events c (started s) (drop n events))
      → (if ltb n (length events)
          then drain p api d fuel events limit c (started s)
          else ok (c, started s))
        ≡ process_all p api d events c (started s) (drop n events)
  unfolding process_all
  next_page keeps events limit fuel n c s now at rest = elim (Bool-cases (ltb n (length events))) [
    | inl more ↦
        ap (λ b. if b then drain p api d fuel events limit c (started s) else ok (c, started s))
          more
        ∙ rest more
    | inr last ↦
        ap (λ b. if b then drain p api d fuel events limit c (started s) else ok (c, started s))
          last
        ∙ ap (λ es. process_all p api d events c (started s) es)
            (sym (drop_all n events (ground (arith, last))))
  ]

  -- The loop at some fuel is the run over all events from the cursor.
  abbrev DrainsAll : List StoredEvent → ℕ → ℕ → Type 0
  DrainsAll events limit fuel =
      (s : S) (c : RunCursor)
      → current_cursor p api d s ≡ ok c
      → length events < c.core.processed_position + fuel
      → drain p api d fuel events limit c (started s)
        ≡ process_all p api d events c (started s) (drop c.core.processed_position events)

  drain-page :
      KeepsCursor api
      → (events : List StoredEvent) (limit : ℕ) → IsNumbered 1 events
      → 1 ≤ limit
      → limit ≤ 10000
      → (fuel : ℕ) → (1 ≤ fuel → DrainsAll events limit fuel)
      → DrainsAll events limit (suc fuel)
  unfolding drain
  drain-page keeps events limit all one most fuel again s c now enough =
      let n = c.core.processed_position in
      let sel = take limit (drop n events) in
      let size : length sel ≡ min limit (length events - n) =
        omega (arith, length-take limit (drop n events), length-drop n events) in
      ap
        (λ r. r >>= λ page.
          process_all p api d events c (started s) page.events >>= λ (c', session').
          if page.has_more then drain p api d fuel events limit c' session' else ok (c', session'))
        (read_after-numbered events n limit all one most)
      ∙ >>=-cong_ok (process_all p api d events c (started s) sel)
          (λ (c', session').
            if ltb (n + length sel) (length events)
            then drain p api d fuel events limit c' session'
            else ok (c', session'))
          (λ (c', session').
            process_all p api d events c' session' (drop (length sel) (drop n events)))
          (λ (c', session') h.
            let (s', at, now', end) =
              process_all_step keeps events s sel c c' session' now
                (IsNumbered-cast sel (omega arith)
                  (IsNumbered-take (1 + n) limit (drop n events) (IsNumbered-drop 1 n events all)))
                h in
            let rest = next_page keeps events limit fuel (n + length sel) c' s' now' end (λ more.
              again (omega (arith, ltb→lt _ _ more, size, enough)) s' c' now'
                (omega (arith, ltb→lt _ _ more, size, enough, end))
              ∙ ap (λ k. process_all p api d events c' (started s') (drop k events)) end) in
            ap
              (λ x.
                if ltb (n + length sel) (length events)
                then drain p api d fuel events limit c' x
                else ok (c', x))
              at
            ∙ rest
            ∙ ap (λ x. process_all p api d events c' x (drop (n + length sel) events)) (sym at)
            ∙ ap (λ es. process_all p api d events c' session' es)
                (sym (drop-drop n (length sel) events)))
      ∙ sym (process_all-append events c (started s) sel (drop (length sel) (drop n events)))
      ∙ ap (λ es. process_all p api d events c (started s) es)
          (take_then_drop limit (drop n events))

  drain-all :
      KeepsCursor api
      → (events : List StoredEvent) (limit : ℕ) → IsNumbered 1 events
      → 1 ≤ limit
      → limit ≤ 10000
      → (fuel : ℕ) → DrainsAll events limit (suc fuel)
  drain-all keeps events limit all one most zero =
      drain-page keeps events limit all one most zero (λ h. elim h [ ])
  drain-all keeps events limit all one most (suc fuel) =
      drain-page keeps events limit all one most (suc fuel)
        (λ h. drain-all keeps events limit all one most fuel)

  initialize-started :
      (session ready : Session S)
      → initialize p api d session ≡ ok ready
      → ready ≡ started ready.store
  unfolding initialize
  initialize-started session ready h = ground arith

  -- On a log whose events are numbered from 1, and over a store that reads back the cursors of the
  -- commits that it accepts, processAvailable with a page size from 1 to 10000 ends, and is the same
  -- as one pass of `process` over all events after the cursor that is loaded first, in their
  -- order: no event is skipped or repeated at the end of a page, and a throw at an event is its throw.
  pub process_available-all :
      KeepsCursor api
      → (events : List StoredEvent) (session : Session S) (page_size : ℕ) → IsNumbered 1 events
      → 1 ≤ page_size
      → page_size ≤ 10000
      → process_available p api d events session page_size ≡ (
          initialize p api d session >>= λ ready. current_cursor p api d ready.store >>= λ cursor.
          process_all p api d events cursor ready (drop cursor.core.processed_position events))
  unfolding process_available
  process_available-all keeps events session page_size all one most =
      let allowed : assert_page_limit page_size ≡ ok tt = ground (arith, one, most) in
      ap
        (λ r. r >>= λ _. initialize p api d session >>= λ ready.
          current_cursor p api d ready.store >>= λ cursor.
          drain p api d (suc (length events)) events page_size cursor ready)
        allowed
      ∙ >>=-cong_ok (initialize p api d session)
          (λ ready. current_cursor p api d ready.store >>= λ cursor.
            drain p api d (suc (length events)) events page_size cursor ready)
          (λ ready. current_cursor p api d ready.store >>= λ cursor.
            process_all p api d events cursor ready (drop cursor.core.processed_position events))
          (λ ready h.
            >>=-cong_ok (current_cursor p api d ready.store)
              (λ cursor. drain p api d (suc (length events)) events page_size cursor ready)
              (λ cursor.
                process_all p api d events cursor ready
                  (drop cursor.core.processed_position events))
              (λ cursor now.
                let at = initialize-started session ready h in
                ap (λ x. drain p api d (suc (length events)) events page_size cursor x) at
                ∙ drain-all keeps events page_size all one most (length events) ready.store cursor
                    now (omega arith)
                ∙ ap
                    (λ x.
                      process_all p api d events cursor x
                        (drop cursor.core.processed_position events))
                    (sym at)))
