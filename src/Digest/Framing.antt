-- ===== src/Digest/Framing.antt =====
-- Proofs on the length-prefixed framing of core/hash.ts.
use peas_engine.Prelude.{
  ℕ, zero, suc, ◌^◌, ◌<◌, ◌≡◌, ◌≢◌, refl, ap, List, [], ◌∷◌, ◌++◌, arith, length, All, sym, ◌∙◌,
}
use peas_engine.Digest.{big_endian, length_prefix, frame_parts}

length-big_endian : (w n : ℕ) → length (big_endian w n) ≡ w
unfolding big_endian
length-big_endian zero n = refl
length-big_endian (suc w) n = ap suc (length-big_endian w n)

head_eq : (x y : ℕ) (xs ys : List ℕ) → x ∷ xs ≡ y ∷ ys → x ≡ y
head_eq x y xs ys h = cc

digits_determine : (n m : ℕ) → big_endian 8 n ≡ big_endian 8 m → n < 2 ^ 64 → m < 2 ^ 64 → n ≡ m
unfolding big_endian
digits_determine n m h p q = ground arith

append_split :
    (ws bs cs ds : List ℕ) → length ws ≡ length cs → ws ++ bs ≡ cs ++ ds → (ws ≡ cs) × (bs ≡ ds)
append_split [] bs [] ds e h = (refl, h)
append_split [] bs (c ∷ cs) ds e h = absurd (omega arith)
append_split (a ∷ ws) bs [] ds e h = absurd (omega arith)
append_split (a ∷ ws) bs (c ∷ cs) ds e h = ground (arith, append_split ws bs cs ds)

nil-ne-prefix : (n : ℕ) (xs : List ℕ) → [] ≢ length_prefix n ++ xs
unfolding length_prefix big_endian
nil-ne-prefix n xs h = cc

-- A part whose length the eight bytes of the prefix can hold.
abbrev pub Fits : List ℕ → Type 0
Fits part = length part < 2 ^ 64

length_prefix-append :
    (cs' bs : List ℕ) (xs ys : List ℕ)
    → Fits cs'
    → Fits bs
    → length_prefix (length cs') ++ (cs' ++ xs) ≡ length_prefix (length bs) ++ (bs ++ ys)
    → (cs' ≡ bs) × (xs ≡ ys)
unfolding length_prefix
length_prefix-append cs' bs xs ys p q h =
    let (prefixes, rests) =
      append_split (big_endian 8 (length cs')) (cs' ++ xs) (big_endian 8 (length bs)) (bs ++ ys)
        (length-big_endian 8 (length cs') ∙ sym (length-big_endian 8 (length bs))) h in
    append_split cs' xs bs ys (digits_determine (length cs') (length bs) prefixes p q) rests

-- The framed bytes of two lists of parts are equal only if the lists are.
pub frame_parts_injective :
    (xs ys : List (List ℕ)) → All Fits xs → All Fits ys → frame_parts xs ≡ frame_parts ys → xs ≡ ys
unfolding frame_parts
frame_parts_injective [] [] p q h = refl
frame_parts_injective [] (y ∷ ys) p q h = absurd (nil-ne-prefix (length y) _ h)
frame_parts_injective (x ∷ xs) [] p q h = absurd (nil-ne-prefix (length x) _ (sym h))
frame_parts_injective (x ∷ xs) (y ∷ ys) p q h =
    let (same, rest) = length_prefix-append x y (frame_parts xs) (frame_parts ys) p.0 q.0 h in
    cc (same, frame_parts_injective xs ys p.1 q.1 rest)
