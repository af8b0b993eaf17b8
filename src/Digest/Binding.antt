-- ===== src/Digest/Binding.antt =====
-- Proofs on the digests of core/hash.ts and on `framedHash` of the acquisition journal.
use native.Mathlib.Decide.{ℕ_discrete}
use mathlib.Core.Path.{fun_ext}
use mathlib.Core.List.{append_assoc, append-nil}
use peas_engine.Prelude.{
  ℕ, ◌≡◌, ◌≢◌, ◌⊎◌, inl, inr, String, List, [], ◌∷◌, ◌++◌, ap, ok, ◌>>=◌, All,
}
use peas_engine.Json.{Json, canonical_json}
use peas_engine.Digest.{
  Platform, Part, part_bytes, frame_parts, encode_parts, hash_parts, canonical_hash, lp,
  framed_hash,
}
use peas_engine.Digest.Framing.{Fits, frame_parts_injective}

-- Two different inputs with one SHA-256 digest.
abbrev pub Collision : Platform → Type 0
Collision p = (x y : List ℕ) × (x ≢ y) × (p.sha256 x ≡ p.sha256 y)

bytes_discrete : Discrete (List ℕ)
bytes_discrete = hlevel ℕ_discrete

-- The UTF-8 encoding of texts of scalar values loses nothing.
abbrev pub EncodesFaithfully : Platform → Type 0
EncodesFaithfully p = (s t : String) → p.utf8 s ≡ p.utf8 t → s ≡ t

-- Two parts with one meaning: equal texts, equal bytes, or a text and the bytes of its encoding.
abbrev pub SamePart : Platform → Part → Part → Type 0
SamePart p (Part.string s) (Part.string t) = s ≡ t
SamePart p (Part.string s) (Part.uint8_array bytes) = p.utf8 s ≡ bytes
SamePart p (Part.uint8_array bytes) (Part.string t) = bytes ≡ p.utf8 t
SamePart p (Part.uint8_array bytes) (Part.uint8_array bytes') = bytes ≡ bytes'

-- Two lists of parts that are as long as each other, with one meaning at each place.
abbrev pub SameParts : Platform → List Part → List Part → Type 0
SameParts p [] [] = Unit
SameParts p [] (b ∷ bs) = ⊥
SameParts p (a ∷ as') [] = ⊥
SameParts p (a ∷ as') (b ∷ bs) = SamePart p a b × SameParts p as' bs

part_bytes-SamePart :
    (p : Platform)
    → EncodesFaithfully p
    → (a b : Part) → part_bytes p a ≡ part_bytes p b
    → SamePart p a b
unfolding part_bytes
part_bytes-SamePart p u (Part.string s) (Part.string t) h = u s t h
part_bytes-SamePart p u (Part.string s) (Part.uint8_array bytes) h = h
part_bytes-SamePart p u (Part.uint8_array bytes) (Part.string t) h = h
part_bytes-SamePart p u (Part.uint8_array bytes) (Part.uint8_array bytes') h = h

encode_parts-SameParts :
    (p : Platform)
    → EncodesFaithfully p
    → (as' bs : List Part) → encode_parts p as' ≡ encode_parts p bs
    → SameParts p as' bs
unfolding encode_parts
encode_parts-SameParts p u [] [] h = tt
encode_parts-SameParts p u [] (b ∷ bs) h = cc
encode_parts-SameParts p u (a ∷ as') [] h = cc
encode_parts-SameParts p u (a ∷ as') (b ∷ bs) h =
    let same : part_bytes p a ≡ part_bytes p b = cc in
    let rest : encode_parts p as' ≡ encode_parts p bs = cc in
    (part_bytes-SamePart p u a b same, encode_parts-SameParts p u as' bs rest)

-- Every part is shorter than 2^64 bytes.
abbrev pub AllFit : Platform → List Part → Type 0
AllFit p parts = All (λ part. Fits (part_bytes p part)) parts

AllFit-encode_parts :
    (p : Platform) (parts : List Part) → AllFit p parts → All Fits (encode_parts p parts)
unfolding encode_parts
AllFit-encode_parts p [] h = tt
AllFit-encode_parts p (part ∷ parts) h = (h.0, AllFit-encode_parts p parts h.1)

-- If UTF-8 encoding is injective and every part is shorter than 2^64 bytes, then equal `hashParts`
-- digests mean that the domains are the same, and that the parts are as many and the same, one by
-- one (two texts as texts, and bytes as the bytes of the other part, which may be a text that they
-- encode), or they exhibit a collision of SHA-256.
pub hash_parts_binding :
    (p : Platform)
    → EncodesFaithfully p
    → (domain domain' : String) (parts parts' : List Part) → AllFit p (Part.string domain ∷ parts)
    → AllFit p (Part.string domain' ∷ parts')
    → hash_parts p domain parts ≡ hash_parts p domain' parts'
    → ((domain ≡ domain') × SameParts p parts parts') ⊎ Collision p
unfolding hash_parts
hash_parts_binding p u domain domain' parts parts' fit fit' h =
    let as' = Part.string domain ∷ parts in
    let bs = Part.string domain' ∷ parts' in
    let xs = encode_parts p as' in
    let ys = encode_parts p bs in
    elim (bytes_discrete (frame_parts xs) (frame_parts ys)) [
      | yes same ↦ inl (
          encode_parts-SameParts p u as' bs (
            frame_parts_injective xs ys (AllFit-encode_parts p as' fit)
              (AllFit-encode_parts p bs fit') same))
      | no differ ↦ inr (frame_parts xs, frame_parts ys, differ, h)
    ]

frame_parts-pair : (p : Platform) (xs ys : List ℕ) → lp p xs ++ lp p ys ≡ frame_parts (xs ∷ ys ∷ [])
unfolding lp frame_parts
frame_parts-pair p xs ys = simp (append_assoc, append-nil)

-- `framedHash` of the journal and `canonicalHash` of the core give one digest, or throw alike, on
-- every domain and JSON value.
pub framed_hash-eq-canonical_hash :
    (p : Platform) (domain : String) (value : Json)
    → framed_hash p domain value ≡ canonical_hash p domain value
unfolding framed_hash canonical_hash hash_parts encode_parts part_bytes
framed_hash-eq-canonical_hash p domain value =
    ap (λ f. canonical_json p.stringify value >>= f)
      (fun_ext (λ text.
        ap (λ bytes. ok (p.sha256 bytes)) (frame_parts-pair p (p.utf8 domain) (p.utf8 text))))
