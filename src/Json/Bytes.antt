-- ===== src/Json/Bytes.antt =====
-- Lemmas on the bytes of canonical texts, for the accounting of assertJsonWithinLimits.
use peas_engine.Prelude.{
  ℕ, suc, ◌+◌, ◌-◌, ◌≡◌, refl, String, true, List, [], ◌∷◌, ◌++◌, ok, arith, length, length-append,
  codes, all_codes, leb, str_append, ap, ◌∙◌,
}
use peas_engine.Json.Defs.{Fields, end, field}
use peas_engine.Json.Encoding.{Stringify, insert_entry, join, entry_texts}
use peas_engine.Json.Limits.{JsonLimits, JsonMetrics, enter_node, add_canonical_bytes}

-- What the code relies on in UTF-8: texts are encoded piece by piece, and an ASCII character is one
-- byte.
pub record IsUtf8 (utf8 : String → List ℕ) : Type 0 where
  pub append : (s t : String) → utf8 (str_append s t) ≡ utf8 s ++ utf8 t
  pub ascii :
      (s : String)
      → all_codes (λ c. leb c 127) (codes s) ≡ true
      → length (utf8 s) ≡ length (codes s)

pub add_canonical_bytes-eq-ok :
    (l : JsonLimits) (n : ℕ) (m m' : JsonMetrics)
    → add_canonical_bytes l n m ≡ ok m'
    → m'.canonical_bytes ≡ m.canonical_bytes + n
unfolding add_canonical_bytes
add_canonical_bytes-eq-ok l n m m' h = ground arith

pub enter_node-eq-ok :
    (l : JsonLimits) (depth : ℕ) (m m' : JsonMetrics)
    → enter_node l depth m ≡ ok m'
    → m'.canonical_bytes ≡ m.canonical_bytes
unfolding enter_node
enter_node-eq-ok l depth m m' h = ground arith

module _ (p : Stringify) (u : String → List ℕ) (utf8 : IsUtf8 u) where
  unfoldable pub bytes : String → ℕ
  bytes s = length (u s)

  unfoldable pub texts_bytes : List String → ℕ
  texts_bytes [] = 0
  texts_bytes (s ∷ ss) = bytes s + texts_bytes ss

  unfoldable pub entries_bytes : List (String × String) → ℕ
  entries_bytes [] = 0
  entries_bytes ((k, v) ∷ es) = bytes (p.quote k) + 1 + bytes v + entries_bytes es

  unfoldable pub keys_bytes : Fields → ℕ
  keys_bytes end = 0
  keys_bytes (field k v fs) = bytes (p.quote k) + 1 + keys_bytes fs

  pub bytes-append : (s t : String) → bytes (str_append s t) ≡ bytes s + bytes t
  unfolding bytes
  bytes-append s t = ap length (utf8.append s t) ∙ length-append (u s) (u t)

  pub bytes-ascii :
      (s : String) → all_codes (λ c. leb c 127) (codes s) ≡ true → bytes s ≡ length (codes s)
  unfolding bytes
  bytes-ascii s h = utf8.ascii s h

  -- A text between two ASCII characters.
  pub bytes-between :
      (a s b : String)
      → bytes a ≡ 1
      → bytes b ≡ 1
      → bytes (str_append a (str_append s b)) ≡ bytes s + 2
  bytes-between a s b one one' = omega (arith, bytes-append a (str_append s b), bytes-append s b)

  pub bytes-join : (ss : List String) → bytes (join ss) ≡ texts_bytes ss + (length ss - 1)
  unfolding join texts_bytes
  bytes-join [] = bytes-ascii "" refl
  bytes-join (s ∷ []) = omega arith
  bytes-join (s ∷ t ∷ ss) = omega (
    arith,
    bytes-append s (str_append "," (join (t ∷ ss))),
    bytes-append "," (join (t ∷ ss)),
    bytes-ascii "," refl,
    bytes-join (t ∷ ss),
  )

  pub entry_texts-bytes :
      (es : List (String × String))
      → (texts_bytes (entry_texts p es) ≡ entries_bytes es)
        × (length (entry_texts p es) ≡ length es)
  unfolding texts_bytes entries_bytes entry_texts
  entry_texts-bytes [] = (refl, refl)
  entry_texts-bytes ((k, v) ∷ es) =
      let (total, count) = entry_texts-bytes es in
      (
        omega (
          arith,
          bytes-append (p.quote k) (str_append ":" v),
          bytes-append ":" v,
          bytes-ascii ":" refl,
          total,
        ),
        ap suc count,
      )

  pub insert_entry-bytes :
      (k v : String) (es : List (String × String))
      → (entries_bytes (insert_entry k v es) ≡ bytes (p.quote k) + 1 + bytes v + entries_bytes es)
        × (length (insert_entry k v es) ≡ suc (length es))
  unfolding insert_entry entries_bytes
  insert_entry-bytes k v [] = (refl, refl)
  insert_entry-bytes k v ((j, w) ∷ es) =
      let (total, count) = insert_entry-bytes k v es in ground arith
