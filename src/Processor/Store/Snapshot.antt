-- ===== src/Processor/Store/Snapshot.antt =====
-- The first loop of `snapshot` over the in-memory store.
use peas_engine.Prelude.{
  append_nil, ℕ, zero, suc, ◌-◌, ◌≤◌, ◌<◌, ◌≡◌, refl, sym, ap, ◌∙◌, String, true, false, Bool-cases,
  inl, inr, List, [], ◌∷◌, ◌++◌, ok, ◌>>=◌, ◌>>◌, >>=-assoc, length, take, take-append-drop,
  length-drop, if◌then◌else◌, arith,
}
use peas_engine.Digest.{Platform}
use peas_engine.Events.{StoredEvent}
use peas_engine.Processor.{StoredOutput}
use peas_engine.Processor.Store.{MemoryStore, empty_store}
use peas_engine.Processor.Store.Adapter.{memory_store}
use peas_engine.Processor.Store.Concurrency.{Reaches}
use peas_engine.Processor.Store.Sequences.{IsSequenced, Reaches-IsSequenced}
use peas_engine.Processor.Store.Pages.{page_end}
use peas_engine.Processor.Store.Reads.{
  outputs_after, last_sequence, is_inhabited, assert_limit, audit_output, audit_outputs,
  read_outputs_after,
}
use peas_engine.Processor.Process.{Processor}
use peas_engine.Processor.Process.Run.{collect_outputs}

audit_outputs-append :
    (p : Platform) (xs ys : List StoredOutput)
    → audit_outputs p (xs ++ ys) ≡ (audit_outputs p xs >> audit_outputs p ys)
unfolding audit_outputs
audit_outputs-append p [] ys = refl
audit_outputs-append p (o ∷ xs) ys =
    ap (λ rest. audit_output p o >> rest) (audit_outputs-append p xs ys)
    ∙ sym (>>=-assoc (audit_output p o) (λ _. audit_outputs p xs) (λ _. audit_outputs p ys))

none_left : (xs : List StoredOutput) → is_inhabited xs ≡ false → xs ≡ []
none_left [] h = refl
none_left (x ∷ xs) h = cc

some_left : (xs : List StoredOutput) → is_inhabited xs ≡ true → 1 ≤ length xs
some_left [] h = cc
some_left (x ∷ xs) h = omega arith

module _ (p : Platform) (events : List StoredEvent) (d : Processor) (s : MemoryStore) where
  abbrev run : String
  run = d.registration.manifest.run_id

  -- A page: its outputs are audited, and the page says whether others follow.
  page_audited :
      (n limit : ℕ)
      → 1 ≤ limit
      → limit ≤ 10000
      → read_outputs_after p s run n limit ≡ (
          audit_outputs p (take limit (outputs_after run n s.outputs))
          >> ok (record {
            outputs = take limit (outputs_after run n s.outputs);
            next_sequence = last_sequence n (take limit (outputs_after run n s.outputs));
            has_more = is_inhabited (
                outputs_after run
                  (last_sequence n (take limit (outputs_after run n s.outputs)))
                  s.outputs);
          }))
  unfolding read_outputs_after
  page_audited n limit one most =
      let allowed : assert_limit limit "Output page limit is invalid" ≡ ok tt =
        ground (arith, one, most) in
      ap
        (λ r. r >>= λ _.
          audit_outputs p (take limit (outputs_after run n s.outputs))
          >> ok (record {
            outputs = take limit (outputs_after run n s.outputs);
            next_sequence = last_sequence n (take limit (outputs_after run n s.outputs));
            has_more = is_inhabited (
                outputs_after run (last_sequence n (take limit (outputs_after run n s.outputs)))
                  s.outputs);
          }))
        allowed

  -- From a sequence number on, the loop audits and returns all outputs of the run after it.
  collect_outputs-all :
      IsSequenced 1 s.outputs
      → (limit : ℕ) → 1 ≤ limit
      → limit ≤ 10000
      → (fuel n : ℕ) → length (outputs_after run n s.outputs) < fuel
      → collect_outputs p (memory_store p events) d fuel s limit n
        ≡ (audit_outputs p (outputs_after run n s.outputs) >> ok (outputs_after run n s.outputs))
  unfolding collect_outputs memory_store audit_outputs
  collect_outputs-all numbered limit one most zero n enough = elim enough [ ]
  collect_outputs-all numbered limit one most (suc fuel) n enough =
      let all = outputs_after run n s.outputs in
      let sel = take limit all in
      let next = last_sequence n sel in
      let later = outputs_after run next s.outputs in
      let (_, end) = page_end run 1 n limit s.outputs numbered in
      let short : length later ≡ length all - limit =
        omega (arith, ap length end, length-drop limit all) in
      let whole : sel ++ later ≡ all = ap (λ xs. sel ++ xs) end ∙ take-append-drop limit all in
      let more_pages =
        (collect_outputs p (memory_store p events) d fuel s limit next >>= λ os. ok (sel ++ os)) in
      let rest : (if is_inhabited later then more_pages else ok sel)
          ≡ (audit_outputs p later >> ok (sel ++ later)) =
        elim (Bool-cases (is_inhabited later)) [
          | inl more ↦
              (let again =
                  collect_outputs-all numbered limit one most fuel next
                    (omega (arith, some_left later more, short, enough)) in
                ap (λ b. if b then more_pages else ok sel) more
                ∙ ap (λ r. r >>= λ os. ok (sel ++ os)) again
                ∙ >>=-assoc (audit_outputs p later) (λ _. ok later) (λ os. ok (sel ++ os)))
          | inr last ↦
              ap (λ b. if b then more_pages else ok sel) last
              ∙ ap (λ xs. ok xs) (sym (append_nil sel))
              ∙ ap (λ xs. audit_outputs p xs >> ok (sel ++ xs)) (sym (none_left later last))
        ] in
      ap
        (λ r. r >>= λ page.
          if page.has_more
          then (collect_outputs p (memory_store p events) d fuel s limit page.next_sequence
              >>= λ os. ok (page.outputs ++ os))
          else ok page.outputs)
        (page_audited n limit one most)
      ∙ >>=-assoc (audit_outputs p sel)
          (λ _. ok (record { outputs = sel; next_sequence = next; has_more = is_inhabited later }))
          (λ page.
            if page.has_more
            then (collect_outputs p (memory_store p events) d fuel s limit page.next_sequence
                >>= λ os. ok (page.outputs ++ os))
            else ok page.outputs)
      ∙ ap (λ r. audit_outputs p sel >>= λ _. r) rest
      ∙ sym (>>=-assoc (audit_outputs p sel) (λ _. audit_outputs p later) (λ _. ok (sel ++ later)))
      ∙ ap (λ r. r >>= λ _. ok (sel ++ later)) (sym (audit_outputs-append p sel later))
      ∙ ap (λ xs. audit_outputs p xs >> ok xs) whole

-- In a store that accepted operations reach from the empty store, with a page size from 1 to 10000 and
-- more fuel than the store has outputs of the processor's run, the loop of `snapshot` over pages
-- of outputs ends, and is the same as one audit of all outputs of the run, returned in the order of their
-- numbers: none is lost or repeated at the end of a page.
pub collect_outputs-snapshot :
    (p : Platform) (events : List StoredEvent) (d : Processor) (s : MemoryStore) (limit fuel : ℕ)
    → Reaches p empty_store s
    → 1 ≤ limit
    → limit ≤ 10000
    → length (outputs_after d.registration.manifest.run_id 0 s.outputs) < fuel
    → collect_outputs p (memory_store p events) d fuel s limit 0 ≡ (
        audit_outputs p (outputs_after d.registration.manifest.run_id 0 s.outputs)
        >> ok (outputs_after d.registration.manifest.run_id 0 s.outputs))
collect_outputs-snapshot p events d s limit fuel reached one most enough =
    collect_outputs-all p events d s (Reaches-IsSequenced p s reached) limit one most fuel 0 enough
