-- ===== src/Json/Accounting.antt =====
-- Proofs on the bytes that assertJsonWithinLimits accounts for.
use peas_engine.Prelude.{
  ℕ, suc, ◌+◌, ◌-◌, ◌≡◌, refl, String, Bool, true, false, List, [], ◌∷◌, ok, ◌>>=◌, ◌>>◌, fail_if,
  arith, length, ltb, str_eq, str_append, >>=-eq-ok, fail_if-eq-ok, ap, ◌∙◌,
}
use peas_engine.Json.Defs.{
  Json, null, bool, num, str, arr, obj, Items, nil, cons, Fields, end, field,
}
use peas_engine.Json.Encoding.{
  Stringify, is_unsafe, insert_entry, join, entry_texts, encode, encode_items, encode_fields,
  canonical_json,
}
use peas_engine.Json.Limits.{
  JsonLimits, JsonMetrics, enter_node, add_canonical_bytes, count_items, count_fields, check_keys,
  add_key_bytes, visit_leaf, visit_text, open_array, open_object, visit, visit_items, visit_fields,
  assert_json_limits, assert_json_within_limits,
}
use peas_engine.Json.Bytes.{
  IsUtf8, add_canonical_bytes-eq-ok, enter_node-eq-ok, bytes, texts_bytes, entries_bytes,
  keys_bytes, bytes-ascii, bytes-between, bytes-join, entry_texts-bytes, insert_entry-bytes,
}

module _ (p : Stringify) (u : String → List ℕ) (utf8 : IsUtf8 u) (l : JsonLimits) where
  visit_leaf-eq-ok :
      (depth n : ℕ) (m m' : JsonMetrics)
      → visit_leaf p u l depth n m ≡ ok m'
      → m'.canonical_bytes ≡ m.canonical_bytes + n
  unfolding visit_leaf
  visit_leaf-eq-ok depth n m m' h =
      let (m₁, entered, h₁) = >>=-eq-ok (enter_node l depth m) _ h in
      omega (arith, enter_node-eq-ok l depth m m₁ entered, add_canonical_bytes-eq-ok l n m₁ m' h₁)

  visit_text-eq-ok :
      (depth : ℕ) (s : String) (m m' : JsonMetrics)
      → visit_text p u l depth s m ≡ ok m'
      → m'.canonical_bytes ≡ m.canonical_bytes + length (u (p.quote s))
  unfolding visit_text
  visit_text-eq-ok depth s m m' h =
      let (m₁, entered, h₁) = >>=-eq-ok (enter_node l depth m) _ h in
      let (_, short, h₂) =
        >>=-eq-ok (fail_if (ltb l.max_string_bytes (length (u s))) "exceeds the string limit") _
          h₁ in
      omega (arith, enter_node-eq-ok l depth m m₁ entered, add_canonical_bytes-eq-ok l _ m₁ m' h₂)

  visit_num-eq-ok :
      (depth n : ℕ) (unsafe : Bool) (m m' : JsonMetrics)
      → (enter_node l depth m >>= λ m₁.
          fail_if unsafe "must be a safe integer and cannot be negative zero"
          >> add_canonical_bytes l n m₁)
        ≡ ok m'
      → (unsafe ≡ false) × (m'.canonical_bytes ≡ m.canonical_bytes + n)
  visit_num-eq-ok depth n unsafe m m' h =
      let (m₁, entered, h₁) = >>=-eq-ok (enter_node l depth m) _ h in
      let (_, safe, h₂) =
        >>=-eq-ok (fail_if unsafe "must be a safe integer and cannot be negative zero") _ h₁ in
      (
        fail_if-eq-ok _ _ safe,
        omega
            (arith, enter_node-eq-ok l depth m m₁ entered, add_canonical_bytes-eq-ok l n m₁ m' h₂),
      )

  add_key_bytes-eq-ok :
      (fs : Fields) (m m' : JsonMetrics)
      → add_key_bytes p u l fs m ≡ ok m'
      → m'.canonical_bytes ≡ m.canonical_bytes + keys_bytes p u utf8 fs
  unfolding add_key_bytes keys_bytes bytes
  add_key_bytes-eq-ok end m m' h = ground arith
  add_key_bytes-eq-ok (field k v fs) m m' h =
      let (m₁, added, h₁) = >>=-eq-ok (add_canonical_bytes l (length (u (p.quote k)) + 1) m) _ h in
      omega (arith, add_canonical_bytes-eq-ok l _ m m₁ added, add_key_bytes-eq-ok fs m₁ m' h₁)

  open_array-eq-ok :
      (depth : ℕ) (xs : Items) (m m' : JsonMetrics)
      → open_array p u l depth xs m ≡ ok m'
      → m'.canonical_bytes ≡ m.canonical_bytes + 2 + (count_items xs - 1)
  unfolding open_array
  open_array-eq-ok depth xs m m' h =
      let (m₁, entered, h₁) = >>=-eq-ok (enter_node l depth m) _ h in
      let (_, short, h₂) =
        >>=-eq-ok (fail_if (ltb l.max_array_length (count_items xs)) "exceeds the array limit") _
          h₁ in
      omega (arith, enter_node-eq-ok l depth m m₁ entered, add_canonical_bytes-eq-ok l _ m₁ m' h₂)

  open_object-eq-ok :
      (depth : ℕ) (fs : Fields) (m m' : JsonMetrics)
      → open_object p u l depth fs m ≡ ok m'
      → (check_keys p u l fs ≡ ok tt)
        × (m'.canonical_bytes
            ≡ m.canonical_bytes + 2 + (count_fields fs - 1) + keys_bytes p u utf8 fs)
  unfolding open_object
  open_object-eq-ok depth fs m m' h =
      let (m₁, entered, h₁) = >>=-eq-ok (enter_node l depth m) _ h in
      let (_, short, h₂) =
        >>=-eq-ok (fail_if (ltb l.max_object_keys (count_fields fs)) "exceeds the object limit") _
          h₁ in
      let (_, checked, h₃) = >>=-eq-ok (check_keys p u l fs) _ h₂ in
      let (m₂, added, h₄) = >>=-eq-ok (add_canonical_bytes l (2 + (count_fields fs - 1)) m₁) _ h₃ in
      (
        checked,
        omega (
          arith,
          enter_node-eq-ok l depth m m₁ entered,
          add_canonical_bytes-eq-ok l _ m₁ m₂ added,
          add_key_bytes-eq-ok fs m₂ m' h₄,
        ),
      )

  check_keys-cons :
      (k : String) (v : Json) (fs : Fields)
      → check_keys p u l (field k v fs) ≡ ok tt
      → (str_eq k "__proto__" ≡ false) × (check_keys p u l fs ≡ ok tt)
  unfolding check_keys
  check_keys-cons k v fs h =
      let (_, fine, h₁) =
        >>=-eq-ok (fail_if (str_eq k "__proto__") "cannot contain the forbidden JSON key __proto__")
          _ h in
      let (_, short, h₂) =
        >>=-eq-ok (fail_if (ltb l.max_string_bytes (length (u k))) "key exceeds the string limit") _
          h₁ in
      (fail_if-eq-ok _ _ fine, h₂)

-- A value of known bytes on top of those counted before.
abbrev Encodes :
    (p : Stringify) (u : String → List ℕ) → IsUtf8 u → Json → JsonMetrics → JsonMetrics → Type 0
Encodes p u utf8 v m m' =
    (text : String) × (encode p v ≡ ok text)
    × (m'.canonical_bytes ≡ m.canonical_bytes + bytes p u utf8 text)

mutual
  unfolding visit encode count_items count_fields bytes texts_bytes entries_bytes keys_bytes

  visit-Encodes :
      (p : Stringify) (u : String → List ℕ) (utf8 : IsUtf8 u) (l : JsonLimits) (depth : ℕ)
      (v : Json) (m m' : JsonMetrics)
      → visit p u l depth v m ≡ ok m'
      → Encodes p u utf8 v m m'
  visit-Encodes p u utf8 l depth null m m' h = (
    "null",
    refl,
    omega (arith, visit_leaf-eq-ok p u utf8 l depth 4 m m' h, bytes-ascii p u utf8 "null" refl),
  )
  visit-Encodes p u utf8 l depth (bool true) m m' h = (
    "true",
    refl,
    omega (arith, visit_leaf-eq-ok p u utf8 l depth 4 m m' h, bytes-ascii p u utf8 "true" refl),
  )
  visit-Encodes p u utf8 l depth (bool false) m m' h = (
    "false",
    refl,
    omega (arith, visit_leaf-eq-ok p u utf8 l depth 5 m m' h, bytes-ascii p u utf8 "false" refl),
  )
  visit-Encodes p u utf8 l depth (num n) m m' h =
      let (safe, counted) =
        visit_num-eq-ok p u utf8 l depth (length (u (p.digits n))) (is_unsafe n) m m' h in
      (p.digits n, rw safe refl, counted)
  visit-Encodes p u utf8 l depth (str s) m m' h =
      (p.quote s, refl, visit_text-eq-ok p u utf8 l depth s m m' h)
  visit-Encodes p u utf8 l depth (arr xs) m m' h =
      let (m₁, opened, h₁) = >>=-eq-ok (open_array p u l depth xs m) _ h in
      let (texts, encoded, counted, many) = items-Encode p u utf8 l (depth + 1) xs m₁ m' h₁ in
      (
        str_append "[" (str_append (join texts) "]"),
        rw encoded refl,
        omega (
          arith,
          open_array-eq-ok p u utf8 l depth xs m m₁ opened,
          bytes-between p u utf8 "[" (join texts) "]" (bytes-ascii p u utf8 "[" refl)
              (bytes-ascii p u utf8 "]" refl),
          bytes-join p u utf8 texts,
          counted,
          many,
        ),
      )
  visit-Encodes p u utf8 l depth (obj fs) m m' h =
      let (m₁, opened, h₁) = >>=-eq-ok (open_object p u l depth fs m) _ h in
      let (checked, before) = open_object-eq-ok p u utf8 l depth fs m m₁ opened in
      let (es, encoded, counted, many) = fields-Encode p u utf8 l (depth + 1) fs m₁ m' checked h₁ in
      let (total, count) = entry_texts-bytes p u utf8 es in
      (
        str_append "{" (str_append (join (entry_texts p es)) "}"),
        rw encoded refl,
        omega (
          arith,
          before,
          bytes-between p u utf8 "{" (join (entry_texts p es)) "}" (bytes-ascii p u utf8 "{" refl)
              (bytes-ascii p u utf8 "}" refl),
          bytes-join p u utf8 (entry_texts p es),
          total,
          count,
          counted,
          many,
        ),
      )

  items-Encode :
      (p : Stringify) (u : String → List ℕ) (utf8 : IsUtf8 u) (l : JsonLimits) (depth : ℕ)
      (xs : Items) (m m' : JsonMetrics)
      → visit_items p u l depth xs m ≡ ok m'
      → (texts : List String) × (encode_items p xs ≡ ok texts)
        × (m'.canonical_bytes ≡ m.canonical_bytes + texts_bytes p u utf8 texts)
        × (length texts ≡ count_items xs)
  items-Encode p u utf8 l depth nil m m' h = ([], refl, ground arith, refl)
  items-Encode p u utf8 l depth (cons x xs) m m' h =
      let (m₁, visited, h₁) = >>=-eq-ok (visit p u l depth x m) _ h in
      let (t, encoded, counted) = visit-Encodes p u utf8 l depth x m m₁ visited in
      let (ts, rest, total, many) = items-Encode p u utf8 l depth xs m₁ m' h₁ in
      (t ∷ ts, rw (encoded, rest) refl, omega (arith, counted, total), ap suc many)

  fields-Encode :
      (p : Stringify) (u : String → List ℕ) (utf8 : IsUtf8 u) (l : JsonLimits) (depth : ℕ)
      (fs : Fields) (m m' : JsonMetrics)
      → check_keys p u l fs ≡ ok tt
      → visit_fields p u l depth fs m ≡ ok m'
      → (es : List (String × String)) × (encode_fields p fs ≡ ok es)
        × (m'.canonical_bytes + keys_bytes p u utf8 fs
            ≡ m.canonical_bytes + entries_bytes p u utf8 es)
        × (length es ≡ count_fields fs)
  fields-Encode p u utf8 l depth end m m' c h = ([], refl, ground arith, refl)
  fields-Encode p u utf8 l depth (field k v fs) m m' c h =
      let (fine, c₁) = check_keys-cons p u utf8 l k v fs c in
      let (m₁, visited, h₁) = >>=-eq-ok (visit p u l depth v m) _ h in
      let (t, encoded, counted) = visit-Encodes p u utf8 l depth v m m₁ visited in
      let (es, rest, total, many) = fields-Encode p u utf8 l depth fs m₁ m' c₁ h₁ in
      let (inserted, longer) = insert_entry-bytes p u utf8 k t es in
      (
        insert_entry k t es,
        rw (fine, encoded, rest) refl,
        omega (arith, counted, total, inserted),
        longer ∙ ap suc many,
      )

-- Where UTF-8 encodes texts piece by piece and ASCII by single bytes: for every value that
-- assertJsonWithinLimits lets pass, canonicalJson throws nothing, and the bytes that the metrics
-- report are exactly the length of its UTF-8 text.
pub within_limits_exact :
    (p : Stringify) (u : String → List ℕ)
    → IsUtf8 u
    → (value : Json) (l : JsonLimits) (m : JsonMetrics)
    → assert_json_within_limits p u value l ≡ ok m
    → (text : String) × (canonical_json p value ≡ ok text) × (m.canonical_bytes ≡ length (u text))
unfolding assert_json_within_limits canonical_json bytes
within_limits_exact p u utf8 value l m h =
    let (_, positive, h₁) = >>=-eq-ok (assert_json_limits l) _ h in
    let (text, encoded, counted) = visit-Encodes p u utf8 l 1 value _ m h₁ in
    (text, encoded, omega (arith, counted))
