-- ===== src/Json/Encoding.antt =====
-- core/json.ts: `encode` and `canonicalJson`. The text of a number and the quoted text of a string
-- are those of the runtime's `JSON.stringify`, a parameter.
use peas_engine.Prelude.{
  ℕ, String, Bool, true, false, List, [], ◌∷◌, Result, ok, err, ◌>>=◌, fail_if, ltb, ◌+◌, ◌-◌, ◌/◌,
  ◌%◌, codes, str_eq, str_append, if◌then◌else◌,
}
use peas_engine.Json.Defs.{
  ℤ, pos, negsuc, Json, null, bool, num, str, arr, obj, Items, nil, cons, Fields, end, field,
}

-- `JSON.stringify` of a string and of an integer.
pub record Stringify : Type 0 where
  pub quote : String → String
  pub digits : ℤ → String

-- Number.MAX_SAFE_INTEGER
abbrev pub max_safe : ℕ
max_safe = 9007199254740991

-- `!Number.isSafeInteger(value)`, on an integer; -(n + 1) is safe up to n = MAX_SAFE_INTEGER - 1.
abbrev pub is_unsafe : ℤ → Bool
is_unsafe (pos n) = ltb max_safe n
is_unsafe (negsuc n) = ltb 9007199254740990 n

-- The UTF-16 code units of a text, by which `<` compares texts.
unfoldable pub code_units : List ℕ → List ℕ
code_units [] = []
code_units (c ∷ cs) =
    let rest = code_units cs in
    if ltb 65535 c
    then (55296 + (c - 65536) / 1024) ∷ (56320 + (c - 65536) % 1024) ∷ rest
    else c ∷ rest

unfoldable pub units_lt : List ℕ → List ℕ → Bool
units_lt us [] = false
units_lt [] (v ∷ vs) = true
units_lt (u ∷ us) (v ∷ vs) =
    let rest = units_lt us vs in if ltb u v then true else if ltb v u then false else rest

-- `left.key < right.key`
unfoldable pub key_lt : String → String → Bool
unfolding code_units units_lt
key_lt s t = units_lt (code_units (codes s)) (code_units (codes t))

-- `objectDataEntries` sorts by key; this is the sort, on encoded entries.
unfoldable pub insert_entry : String → String → List (String × String) → List (String × String)
unfolding key_lt
insert_entry k v [] = (k, v) ∷ []
insert_entry k v ((j, w) ∷ es) =
    let rest = insert_entry k v es in if key_lt j k then (j, w) ∷ rest else (k, v) ∷ (j, w) ∷ es

-- The texts of a container's members with commas between.
unfoldable pub join : List String → String
join [] = ""
join (s ∷ []) = s
join (s ∷ t ∷ ss) = str_append s (str_append "," (join (t ∷ ss)))

module _ (p : Stringify) where
  unfoldable pub entry_texts : List (String × String) → List String
  entry_texts [] = []
  entry_texts ((k, v) ∷ es) = str_append (p.quote k) (str_append ":" v) ∷ entry_texts es

unfoldable mutual
  unfolding insert_entry join entry_texts

  pub encode : Stringify → Json → Result String
  encode p null = ok "null"
  encode p (bool true) = ok "true"
  encode p (bool false) = ok "false"
  encode p (num n) =
      if is_unsafe n
      then err "must be a safe integer and cannot be negative zero"
      else ok (p.digits n)
  encode p (str s) = ok (p.quote s)
  encode p (arr xs) =
      encode_items p xs >>= λ texts. ok (str_append "[" (str_append (join texts) "]"))
  encode p (obj fs) =
      encode_fields p fs >>= λ es. ok (str_append "{" (str_append (join (entry_texts p es)) "}"))

  pub encode_items : Stringify → Items → Result (List String)
  encode_items p nil = ok []
  encode_items p (cons x xs) = encode p x >>= λ t. encode_items p xs >>= λ ts. ok (t ∷ ts)

  pub encode_fields : Stringify → Fields → Result (List (String × String))
  encode_fields p end = ok []
  encode_fields p (field k v fs) =
      fail_if (str_eq k "__proto__") "cannot contain the forbidden JSON key __proto__" >>= λ _.
      encode p v >>= λ t. encode_fields p fs >>= λ es. ok (insert_entry k t es)

-- canonicalJson
unfoldable pub canonical_json : Stringify → Json → Result String
unfolding encode
canonical_json p j = encode p j
