-- ===== src/Digest.antt =====
-- core/hash.ts, and `framedHash` of adapters/market-acquisition/journal.ts: digests of
-- length-prefixed parts. SHA-256 and the UTF-8 encoding are the runtime's, parameters here.
pub mod Framing
pub mod Binding
mod Tests
use peas_engine.Prelude.{
  ℕ, zero, suc, ◌+◌, ◌*◌, ◌/◌, ◌%◌, ◌^◌, ◌<◌, ◌≡◌, String, List, [], ◌∷◌, ◌++◌, Result, ok, err,
  ◌>>=◌, length,
}
use peas_engine.Json.{Json, Stringify, canonical_json}

-- `createHash("sha256")…digest("hex")` of bytes, `Buffer.from(text, "utf8")`, `JSON.stringify`.
pub record Platform : Type 0 where
  pub sha256 : List ℕ → String
  pub utf8 : String → List ℕ
  pub stringify : Stringify

-- `writeBigUInt64BE` at a width of n bytes: most significant byte first.
unfoldable pub big_endian : ℕ → ℕ → List ℕ
big_endian zero n = []
big_endian (suc w) n = (n / 256 ^ w) % 256 ∷ big_endian w n

-- lengthPrefix
unfoldable pub length_prefix : ℕ → List ℕ
unfolding big_endian
length_prefix n = big_endian 8 n

-- The bytes that `hash.update` receives, part by part.
unfoldable pub frame_parts : List (List ℕ) → List ℕ
unfolding length_prefix
frame_parts [] = []
frame_parts (part ∷ parts) = length_prefix (length part) ++ (part ++ frame_parts parts)

-- A part of a digest, `string | Uint8Array`.
pub data Part : Type 0 where
  string : String → Part
  uint8_array : List ℕ → Part

module _ (p : Platform) where
  -- `bytes`
  unfoldable pub part_bytes : Part → List ℕ
  part_bytes (Part.string s) = p.utf8 s
  part_bytes (Part.uint8_array bytes) = bytes

  unfoldable pub encode_parts : List Part → List (List ℕ)
  unfolding part_bytes
  encode_parts [] = []
  encode_parts (part ∷ parts) = part_bytes part ∷ encode_parts parts

  -- hashParts
  unfoldable pub hash_parts : String → List Part → String
  unfolding frame_parts encode_parts
  hash_parts domain parts = p.sha256 (frame_parts (encode_parts (Part.string domain ∷ parts)))

  -- canonicalHash
  unfoldable pub canonical_hash : String → Json → Result String
  unfolding hash_parts
  canonical_hash domain value =
      canonical_json p.stringify value >>= λ text. ok (hash_parts domain (Part.string text ∷ []))

  -- `lp` of journal.ts
  unfoldable pub lp : List ℕ → List ℕ
  unfolding length_prefix
  lp bytes = length_prefix (length bytes) ++ bytes

  -- framedHash of journal.ts
  unfoldable pub framed_hash : String → Json → Result String
  unfolding lp
  framed_hash domain preimage = canonical_json p.stringify preimage >>= λ text.
      ok (p.sha256 (lp (p.utf8 domain) ++ lp (p.utf8 text)))
