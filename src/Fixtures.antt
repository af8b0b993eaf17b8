-- ===== src/Fixtures.antt =====
-- The platform of the tests: every digest is one constant hash, so that different inputs collide; a
-- text is encoded as its code points, which for ASCII are its bytes; a number is printed as a mark.
use Prim.Native.Char.{code}
use Prim.Native.String.append
use text.Mathlib.TextEquality.{Char-path}
use peas_engine.Prelude.{◌≡◌, refl, ap, ◌∙◌, String, ◌∷◌, ◌++◌, codes, str_append}
use peas_engine.Json.{Stringify}
use peas_engine.Json.Bytes.{IsUtf8}
use peas_engine.Digest.{Platform}

abbrev pub hash : String
hash = "aaaaaaaaaaaaaaaaaaaaaaaaaaaaaaaaaaaaaaaaaaaaaaaaaaaaaaaaaaaaaaaa"

abbrev pub stringify : Stringify
stringify = record { quote = λ s. str_append "'" (str_append s "'"); digits = λ n. "0" }

abbrev pub platform : Platform
platform = record { sha256 = λ bytes. hash; utf8 = codes; stringify = stringify }

pub codes-append : (s t : String) → codes (str_append s t) ≡ codes s ++ codes t
codes-append String.[] t = ap codes (append.nil t)
codes-append (String.◌∷◌ c s) t =
    ap codes (append.cons c s t) ∙ ap (λ cs. code c ∷ cs) (codes-append s t)

pub codes_injective : (s t : String) → codes s ≡ codes t → s ≡ t
codes_injective String.[] String.[] h = refl
codes_injective String.[] (String.◌∷◌ d t) h = cc
codes_injective (String.◌∷◌ c s) String.[] h = cc
codes_injective (String.◌∷◌ c s) (String.◌∷◌ d t) h =
    let here = Char-path c d (cc) in let rest = codes_injective s t (cc) in cc

pub codes-IsUtf8 : IsUtf8 codes
codes-IsUtf8 = record { append = codes-append; ascii = λ s h. refl }
