-- ===== src/Processor/Store/Pages.antt =====
-- readOutputsAfter page by page, and the first loop of `snapshot`.
use peas_engine.Prelude.{
  ℕ, zero, suc, ◌≤◌, ◌<◌, ◌≡◌, refl, sym, ap, ◌∙◌, String, Bool, true, false, ◌&&◌, Bool-cases, inl,
  inr, List, [], ◌∷◌, ltb, str_eq, take, drop, if◌then◌else◌, arith,
}
use peas_engine.Processor.{StoredOutput}
use peas_engine.Processor.Store.Sequences.{IsSequenced}
use peas_engine.Processor.Store.Reads.{outputs_after, last_sequence}

module _ (run : String) where
  abbrev is_after : ℕ → StoredOutput → Bool
  is_after n o = str_eq o.output.run_id run && ltb n o.sequence

  outputs_after-in :
      (n : ℕ) (o : StoredOutput) (os : List StoredOutput)
      → is_after n o ≡ true
      → outputs_after run n (o ∷ os) ≡ o ∷ outputs_after run n os
  unfolding outputs_after
  outputs_after-in n o os h =
      ap (λ b. if b then o ∷ outputs_after run n os else outputs_after run n os) h

  outputs_after-out :
      (n : ℕ) (o : StoredOutput) (os : List StoredOutput)
      → is_after n o ≡ false
      → outputs_after run n (o ∷ os) ≡ outputs_after run n os
  unfolding outputs_after
  outputs_after-out n o os h =
      ap (λ b. if b then o ∷ outputs_after run n os else outputs_after run n os) h

  is_after-later :
      (n n' : ℕ) (o : StoredOutput) → n ≤ n' → is_after n o ≡ false → is_after n' o ≡ false
  is_after-later n n' o le h = ground (arith, le, h)

  is_after-low :
      (n n' : ℕ) (o : StoredOutput)
      → n < o.sequence
      → n' < o.sequence
      → is_after n o ≡ is_after n' o
  is_after-low n n' o low low' = ground (arith, low, low')

  is_after_self : (n : ℕ) (o : StoredOutput) → o.sequence ≤ n → is_after n o ≡ false
  is_after_self n o le = ground (arith, le)

  is_after-bound : (n : ℕ) (o : StoredOutput) → is_after n o ≡ true → n < o.sequence
  is_after-bound n o h = ground (arith, h)

  -- Below the first number of a list, the bound does not matter.
  outputs_after-low :
      (m n n' : ℕ) (os : List StoredOutput)
      → IsSequenced m os
      → n < m
      → n' < m
      → outputs_after run n os ≡ outputs_after run n' os
  unfolding outputs_after
  outputs_after-low m n n' [] h low low' = refl
  outputs_after-low m n n' (o ∷ os) h low low' =
      let rest = outputs_after-low (suc m) n n' os h.1 (omega (arith, low)) (omega (arith, low')) in
      let same = is_after-low n n' o (omega (arith, h.0, low)) (omega (arith, h.0, low')) in
      ap (λ b. if b then o ∷ outputs_after run n os else outputs_after run n os) same
      ∙ ap (λ os'. if is_after n' o then o ∷ os' else os') rest

  -- Where a page ends, its outputs followed by those after its last number are all.
  pub page_end :
      (m n k : ℕ) (os : List StoredOutput)
      → IsSequenced m os
      → (n ≤ last_sequence n (take k (outputs_after run n os)))
        × (outputs_after run (last_sequence n (take k (outputs_after run n os))) os
            ≡ drop k (outputs_after run n os))
  unfolding outputs_after last_sequence
  page_end m n zero os h = (omega arith, refl)
  page_end m n (suc k) [] h = (omega arith, refl)
  page_end m n (suc k) (o ∷ os) h = elim (Bool-cases (is_after n o)) [
    | inl taken ↦
        (let above = is_after-bound n o taken in
          let at = outputs_after-in n o os taken in
          let low =
            outputs_after-low (suc m) n o.sequence os h.1 (omega (arith, above, h.0))
              (omega (arith, h.0)) in
          let end = last_sequence o.sequence (take k (outputs_after run o.sequence os)) in
          let same : last_sequence n (take (suc k) (outputs_after run n (o ∷ os))) ≡ end =
            ap (λ xs. last_sequence n (take (suc k) xs)) at
            ∙ ap (λ xs. last_sequence o.sequence (take k xs)) low in
          let (le, rest) = page_end (suc m) o.sequence k os h.1 in
          (
            omega (arith, above, le, same),
            ap (λ e. outputs_after run e (o ∷ os)) same
                ∙ outputs_after-out end o os (is_after_self end o le)
                ∙ rest
                ∙ ap (λ xs. drop k xs) (sym low)
                ∙ ap (λ xs. drop (suc k) xs) (sym at),
          ))
    | inr skipped ↦
        (let at = outputs_after-out n o os skipped in
          let end = last_sequence n (take (suc k) (outputs_after run n os)) in
          let same : last_sequence n (take (suc k) (outputs_after run n (o ∷ os))) ≡ end =
            ap (λ xs. last_sequence n (take (suc k) xs)) at in
          let (le, rest) = page_end (suc m) n (suc k) os h.1 in
          (
            omega (arith, le, same),
            ap (λ e. outputs_after run e (o ∷ os)) same
                ∙ outputs_after-out end o os (is_after-later n end o le skipped)
                ∙ rest
                ∙ ap (λ xs. drop (suc k) xs) (sym at),
          ))
  ]
