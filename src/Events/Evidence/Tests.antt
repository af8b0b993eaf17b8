-- ===== src/Events/Evidence/Tests.antt =====
-- Two pages of one event at a platform whose digest is one constant text and whose quotes mark every
-- character, so that a quoted text ends itself.
use Prim.Native.Char.{code}
use peas_engine.Fixtures.{hash, codes-append, codes_injective, codes-IsUtf8}
use peas_engine.Prelude.{
  ℕ, ◌≡◌, ◌⊎◌, refl, sym, ap, ◌∙◌, String, List, [], ◌∷◌, ◌++◌, none, ok, ok_injective, arith,
  codes, str_append, is_hash,
}
use peas_engine.Json.{str, end, field, canonical_json, code_units}
use peas_engine.Json.Limits.{assert_json_within_limits, count_fields, check_keys, add_key_bytes}
use peas_engine.Digest.{Platform, canonical_hash}
use peas_engine.Digest.Binding.{Collision}
use peas_engine.Events.{EventDraft, StoredEvent}
use peas_engine.Events.Log.{genesis_hash}
use peas_engine.Events.Digests.{
  captured_fields, derive_event_id, compute_content_hash, compute_event_hash, verify_stored_event,
  verify_event_page,
}
use peas_engine.Events.Evidence.Links.{Delimits}
use peas_engine.Events.Evidence.{SameEvents, AreShort, verify_event_page-binding}

abbrev quote : String → String
quote String.[] = "."
quote (String.◌∷◌ c s) = str_append "'" (String.◌∷◌ c (quote s))

abbrev marked : List ℕ → List ℕ
marked [] = 46 ∷ []
marked (c ∷ cs) = 39 ∷ c ∷ marked cs

codes-quote : (s : String) → codes (quote s) ≡ marked (codes s)
codes-quote String.[] = refl
codes-quote (String.◌∷◌ c s) =
    codes-append "'" (String.◌∷◌ c (quote s)) ∙ ap (λ cs. 39 ∷ code c ∷ cs) (codes-quote s)

marked-split : (xs ys us vs : List ℕ) → marked xs ++ us ≡ marked ys ++ vs → (xs ≡ ys) × (us ≡ vs)
marked-split [] [] us vs h = (refl, cc)
marked-split [] (y ∷ ys) us vs h = absurd (ground arith)
marked-split (x ∷ xs) [] us vs h = absurd (ground arith)
marked-split (x ∷ xs) (y ∷ ys) us vs h = ground (arith, marked-split xs ys us vs)

codes-quote_append : (s u : String) → codes (str_append (quote s) u) ≡ marked (codes s) ++ codes u
codes-quote_append s u = codes-append (quote s) u ∙ ap (λ cs. cs ++ codes u) (codes-quote s)

abbrev marks : Platform
marks = record {
  sha256 = λ bytes. hash;
  utf8 = codes;
  stringify = record { quote = quote; digits = λ n. "0" };
}

marks-Delimits : Delimits marks.stringify
marks-Delimits s t u v h =
    let (texts, rests) =
      marked-split (codes s) (codes t) (codes u) (codes v)
        (sym (codes-quote_append s u) ∙ ap codes h ∙ codes-quote_append t v) in
    (codes_injective s t texts, codes_injective u v rests)

abbrev draft_of : String → EventDraft
draft_of subject = record {
  event_type = "filing";
  schema_version = 1;
  source = "sec";
  subject = subject;
  occurred_at_ms = none;
  correlation_id = "c";
  causation_id = none;
  provider = record { provider = "sec"; record_id = "1"; revision_id = "1"; artifact_hash = hash };
  payload = field "form" (str "8-K") end;
}

abbrev event_of : String → StoredEvent
event_of subject = record {
  captured = record {
    draft = draft_of subject;
    event_id = hash;
    stream_version = 1;
    received_at_ms = 500;
    logical_at_ms = 500;
  };
  position = 1;
  content_hash = hash;
  previous_event_hash = genesis_hash;
  event_hash = hash;
}

-- A page and the page with another subject, which has the same constant digests.
abbrev kept : List StoredEvent
kept = event_of "NVDA" ∷ []

abbrev altered : List StoredEvent
altered = event_of "AMD" ∷ []

kept_verifies : verify_event_page marks kept genesis_hash ≡ ok hash
unfolding verify_event_page verify_stored_event assert_json_within_limits count_fields check_keys
    add_key_bytes code_units is_hash derive_event_id canonical_hash canonical_json
    compute_content_hash compute_event_hash
kept_verifies = refl

altered_verifies : verify_event_page marks altered genesis_hash ≡ ok hash
unfolding verify_event_page verify_stored_event assert_json_within_limits count_fields check_keys
    add_key_bytes code_units is_hash derive_event_id canonical_hash canonical_json
    compute_content_hash compute_event_hash
altered_verifies = refl

kept-AreShort : AreShort marks kept
unfolding canonical_json code_units captured_fields
kept-AreShort =
    ((λ text h. rw (ok_injective h) (omega arith), λ text h. rw (ok_injective h) (omega arith)), tt)

altered-AreShort : AreShort marks altered
unfolding canonical_json code_units captured_fields
altered-AreShort =
    ((λ text h. rw (ok_injective h) (omega arith), λ text h. rw (ok_injective h) (omega arith)), tt)

verify_event_page-binding_example :
    ((genesis_hash ≡ genesis_hash) × SameEvents marks kept altered) ⊎ Collision marks
verify_event_page-binding_example =
    verify_event_page-binding marks codes-IsUtf8 codes_injective marks-Delimits kept altered
      genesis_hash genesis_hash hash refl kept-AreShort altered-AreShort kept_verifies
      altered_verifies
