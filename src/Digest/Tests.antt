-- ===== src/Digest/Tests.antt =====
-- The theorems on digests at a platform whose digest is one constant text, so that different parts
-- collide, and whose encoding of a text is its code points.
use peas_engine.Fixtures.{platform, codes_injective}
use peas_engine.Prelude.{◌≡◌, ◌⊎◌, refl, String, List, [], ◌∷◌, arith}
use peas_engine.Json.{str, obj, field, end}
use peas_engine.Digest.{Part, part_bytes, hash_parts, framed_hash, canonical_hash}
use peas_engine.Digest.Binding.{
  Collision, SameParts, hash_parts_binding, framed_hash-eq-canonical_hash,
}

abbrev first : List Part
first = Part.string "a" ∷ Part.uint8_array (98 ∷ 99 ∷ []) ∷ []

abbrev second : List Part
second = Part.string "a" ∷ Part.string "bc" ∷ []

hash_parts_binding_example :
    ((◌≡◌ {A = String} "d" "d") × SameParts platform first second) ⊎ Collision platform
unfolding hash_parts part_bytes
hash_parts_binding_example =
    hash_parts_binding platform codes_injective "d" "d" first second
      (omega arith, (omega arith, (omega arith, tt)))
      (omega arith, (omega arith, (omega arith, tt))) refl

framed_hash-eq-canonical_hash_example :
    framed_hash platform "d" (obj (field "k" (str "v") end))
    ≡ canonical_hash platform "d" (obj (field "k" (str "v") end))
framed_hash-eq-canonical_hash_example =
    framed_hash-eq-canonical_hash platform "d" (obj (field "k" (str "v") end))
