-- ===== src/Prelude/Texts.antt =====
-- Texts: comparison by code points, which is the order of their UTF-8 bytes, and the shapes that
-- the program's regular expressions test.
use Prim.Native.Nat.{ℕ, suc}
use Prim.Native.Char.{code}
use Prim.Native.String.{String, ◌++◌, compare}
use mathlib.Core.Path.{◌≡◌}
use mathlib.Core.Logic.{◌↔◌}
use mathlib.Core.Bool.{Bool, true, ◌&&◌, ◌||◌}
use mathlib.Core.List.{List, [], ◌∷◌}
use text.Mathlib.Text.{◌==◌, is_lt, starts_with}
use text.Mathlib.TextEquality.{eq_iff}
use text.Mathlib.TextPositions.{eq_refl}
use peas_engine.Prelude.Tests.{leb, ◌==◌ as nat_eq}

-- `left === right` on texts.
abbrev pub str_eq : String → String → Bool
str_eq s t = s == t

pub str_eq_iff : (s t : String) → (str_eq s t ≡ true) ↔ (s ≡ t)
str_eq_iff s t = eq_iff s t

pub str_eq_refl : (s : String) → str_eq s s ≡ true
str_eq_refl s = eq_refl s

-- `Buffer.compare(Buffer.from(left), Buffer.from(right)) < 0`.
abbrev pub str_lt : String → String → Bool
str_lt s t = is_lt (compare s t)

abbrev pub str_append : String → String → String
str_append s t = s ++ t

abbrev pub str_starts_with : String → String → Bool
str_starts_with s t = starts_with s t

-- The code points of a text.
abbrev pub codes : String → List ℕ
codes String.[] = []
codes (String.◌∷◌ c s) = code c ∷ codes s

-- `[0-9a-f]`
abbrev pub is_hex : ℕ → Bool
is_hex c = (leb b'0' c && leb c b'9') || (leb b'a' c && leb c b'f')

-- The rest of a text after n characters is empty, and these all pass the test.
abbrev pub all_codes : (ℕ → Bool) → List ℕ → Bool
all_codes p [] = true
all_codes p (c ∷ cs) = p c && all_codes p cs

abbrev count_codes : List ℕ → ℕ
count_codes [] = 0
count_codes (c ∷ cs) = suc (count_codes cs)

-- `/^[0-9a-f]{64}$/u` on characters.
abbrev pub is_hash_codes : List ℕ → Bool
is_hash_codes cs = nat_eq (count_codes cs) 64 && all_codes is_hex cs

-- `/^[0-9a-f]{64}$/u`
unfoldable pub is_hash : String → Bool
is_hash s = is_hash_codes (codes s)

-- `value.length === 0`
abbrev pub is_empty : String → Bool
is_empty s = str_eq s ""
