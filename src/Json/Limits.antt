-- ===== src/Json/Limits.antt =====
-- core/json.ts: assertJsonWithinLimits. Its stack of frames visits the values in pre-order, which is
-- the recursion here; frames that leave a container only serve the test for cycles, and values are
-- finite trees. Where several limits are exceeded, the source reports the first in the order of the
-- keys, and this function the first in the order of the fields.
use peas_engine.Prelude.{
  ℕ, suc, ◌+◌, ◌-◌, max, String, Bool, true, false, List, Result, ok, ◌>>=◌, ◌>>◌, fail_if, ltb,
  leb, ◌&&◌, guard, str_eq, length,
}
use peas_engine.Json.Defs.{
  Json, null, bool, num, str, arr, obj, Items, nil, cons, Fields, end, field,
}
use peas_engine.Json.Encoding.{Stringify, is_unsafe, max_safe}

pub record JsonLimits : Type 0 where
  pub max_depth : ℕ
  pub max_nodes : ℕ
  pub max_array_length : ℕ
  pub max_object_keys : ℕ
  pub max_string_bytes : ℕ
  pub max_canonical_bytes : ℕ

pub record JsonMetrics : Type 0 where
  pub nodes : ℕ
  pub max_depth : ℕ
  pub canonical_bytes : ℕ

abbrev is_limit : ℕ → Bool
is_limit n = leb 1 n && leb n max_safe

-- assertJsonLimits
unfoldable pub assert_json_limits : JsonLimits → Result (Unit {0})
assert_json_limits l =
    guard
      (is_limit l.max_depth
        && is_limit l.max_nodes
        && is_limit l.max_array_length
        && is_limit l.max_object_keys
        && is_limit l.max_string_bytes
        && is_limit l.max_canonical_bytes)
      "must be a positive safe integer"

-- addCanonicalBytes
unfoldable pub add_canonical_bytes : JsonLimits → ℕ → JsonMetrics → Result JsonMetrics
add_canonical_bytes l bytes m = do
  fail_if (ltb l.max_canonical_bytes (m.canonical_bytes + bytes)) "exceeds the canonical JSON limit"
  ok (record m { canonical_bytes = m.canonical_bytes + bytes })

-- The start of a visit: the number of nodes and the depth.
unfoldable pub enter_node : JsonLimits → ℕ → JsonMetrics → Result JsonMetrics
enter_node l depth m = do
  fail_if (ltb l.max_nodes (m.nodes + 1)) "exceeds the JSON node limit"
  fail_if (ltb l.max_depth depth) "exceeds the JSON depth limit"
  ok (record m { nodes = m.nodes + 1; max_depth = max m.max_depth depth })

unfoldable pub count_items : Items → ℕ
count_items nil = 0
count_items (cons x xs) = suc (count_items xs)

unfoldable pub count_fields : Fields → ℕ
count_fields end = 0
count_fields (field k v fs) = suc (count_fields fs)

module _ (p : Stringify) (utf8 : String → List ℕ) where
  -- The tests of objectDataEntries on the keys.
  unfoldable pub check_keys : JsonLimits → Fields → Result (Unit {0})
  check_keys l end = ok tt
  check_keys l (field k v fs) = do
    fail_if (str_eq k "__proto__") "cannot contain the forbidden JSON key __proto__"
    fail_if (ltb l.max_string_bytes (length (utf8 k))) "key exceeds the string limit"
    check_keys l fs

  -- The bytes of the keys, each with its colon.
  unfoldable pub add_key_bytes : JsonLimits → Fields → JsonMetrics → Result JsonMetrics
  unfolding add_canonical_bytes
  add_key_bytes l end m = ok m
  add_key_bytes l (field k v fs) m =
      add_canonical_bytes l (length (utf8 (p.quote k)) + 1) m >>= λ m₁. add_key_bytes l fs m₁

  -- A value without members.
  unfoldable pub visit_leaf : JsonLimits → ℕ → ℕ → JsonMetrics → Result JsonMetrics
  unfolding enter_node add_canonical_bytes
  visit_leaf l depth bytes m = enter_node l depth m >>= λ m₁. add_canonical_bytes l bytes m₁

  unfoldable pub visit_text : JsonLimits → ℕ → String → JsonMetrics → Result JsonMetrics
  visit_text l depth s m = do
    m₁ ← enter_node l depth m
    fail_if (ltb l.max_string_bytes (length (utf8 s))) "exceeds the string limit"
    add_canonical_bytes l (length (utf8 (p.quote s))) m₁

  -- The part of the visit of an array and of an object before their members.
  unfoldable pub open_array : JsonLimits → ℕ → Items → JsonMetrics → Result JsonMetrics
  open_array l depth xs m = do
    m₁ ← enter_node l depth m
    fail_if (ltb l.max_array_length (count_items xs)) "exceeds the array limit"
    add_canonical_bytes l (2 + (count_items xs - 1)) m₁

  unfoldable pub open_object : JsonLimits → ℕ → Fields → JsonMetrics → Result JsonMetrics
  open_object l depth fs m = do
    m₁ ← enter_node l depth m
    fail_if (ltb l.max_object_keys (count_fields fs)) "exceeds the object limit"
    check_keys l fs
    m₂ ← add_canonical_bytes l (2 + (count_fields fs - 1)) m₁
    add_key_bytes l fs m₂

unfoldable mutual
  unfolding visit_leaf visit_text open_array open_object

  pub visit :
      Stringify → (String → List ℕ) → JsonLimits → ℕ → Json → JsonMetrics → Result JsonMetrics
  visit p u l depth null m = visit_leaf p u l depth 4 m
  visit p u l depth (bool true) m = visit_leaf p u l depth 4 m
  visit p u l depth (bool false) m = visit_leaf p u l depth 5 m
  visit p u l depth (num n) m = enter_node l depth m >>= λ m₁.
      fail_if (is_unsafe n) "must be a safe integer and cannot be negative zero"
      >> add_canonical_bytes l (length (u (p.digits n))) m₁
  visit p u l depth (str s) m = visit_text p u l depth s m
  visit p u l depth (arr xs) m =
      open_array p u l depth xs m >>= λ m₁. visit_items p u l (depth + 1) xs m₁
  visit p u l depth (obj fs) m =
      open_object p u l depth fs m >>= λ m₁. visit_fields p u l (depth + 1) fs m₁

  pub visit_items :
      Stringify → (String → List ℕ) → JsonLimits → ℕ → Items → JsonMetrics → Result JsonMetrics
  visit_items p u l depth nil m = ok m
  visit_items p u l depth (cons x xs) m =
      visit p u l depth x m >>= λ m₁. visit_items p u l depth xs m₁

  pub visit_fields :
      Stringify → (String → List ℕ) → JsonLimits → ℕ → Fields → JsonMetrics → Result JsonMetrics
  visit_fields p u l depth end m = ok m
  visit_fields p u l depth (field k v fs) m =
      visit p u l depth v m >>= λ m₁. visit_fields p u l depth fs m₁

-- assertJsonWithinLimits
unfoldable pub assert_json_within_limits :
    Stringify → (String → List ℕ) → Json → JsonLimits → Result JsonMetrics
unfolding assert_json_limits visit
assert_json_within_limits p u value l = do
  assert_json_limits l
  visit p u l 1 value (record { nodes = 0; max_depth = 0; canonical_bytes = 0 })
