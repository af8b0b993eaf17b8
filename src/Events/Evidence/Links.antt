-- ===== src/Events/Evidence/Links.antt =====
-- Lemmas on the canonical texts that the digests of events are taken of.
use text.Mathlib.TextLemmas.{append_assoc, append_cancel_left}
use peas_engine.Prelude.{
  ◌≡◌, ◌⊎◌, inl, inr, refl, sym, ap, ◌∙◌, String, [], ◌∷◌, ok, >>=-eq-ok, ok_injective, str_append,
}
use peas_engine.Json.{Json, Stringify, str, obj, end, field, canonical_json, code_units}
use peas_engine.Digest.{Platform, Part, part_bytes, canonical_hash}
use peas_engine.Digest.Framing.{Fits}
use peas_engine.Digest.Binding.{Collision, EncodesFaithfully, hash_parts_binding}
use peas_engine.Events.{StoredEvent}
use peas_engine.Events.Digests.{captured_fields, decimal_text, compute_event_hash}

-- A quoted string ends itself: what follows it does not change where it ends.
abbrev pub Delimits : Stringify → Type 0
Delimits z =
    (s t u v : String) → str_append (z.quote s) u ≡ str_append (z.quote t) v → (s ≡ t) × (u ≡ v)

module _ (z : Stringify) where
  -- `"key":"value"`
  abbrev member : String → String → String
  member k c = str_append (z.quote k) (str_append ":" (z.quote c))

  -- The canonical text of what an event's digest is of.
  abbrev link_text : String → String → String → String
  link_text position content previous = str_append "{" (
      str_append
        (str_append (member "contentHash" content) (
          str_append "," (
            str_append (member "position" position)
              (str_append "," (member "previousEventHash" previous)))))
        "}")

module _ (z : Stringify) (d : Delimits z) where
  member_open :
      (k c x : String)
      → str_append (member z k c) x
        ≡ str_append (z.quote k) (str_append ":" (str_append (z.quote c) x))
  member_open k c x =
      append_assoc (z.quote k) (str_append ":" (z.quote c)) x
      ∙ ap (λ t. str_append (z.quote k) t) (append_assoc ":" (z.quote c) x)

  member-split :
      (k c c' x y : String)
      → str_append (member z k c) x ≡ str_append (member z k c') y
      → (c ≡ c') × (x ≡ y)
  member-split k c c' x y h = d c c' x y (
      append_cancel_left ":" _ _
        (append_cancel_left (z.quote k) _ _ (sym (member_open k c x) ∙ h ∙ member_open k c' y)))

  members-split :
      (k c c' r r' e : String)
      → str_append (str_append (member z k c) r) e ≡ str_append (str_append (member z k c') r') e
      → (c ≡ c') × (str_append r e ≡ str_append r' e)
  members-split k c c' r r' e h =
      member-split k c c' (str_append r e) (str_append r' e)
        (sym (append_assoc (member z k c) r e) ∙ h ∙ append_assoc (member z k c') r' e)

  comma-cancel :
      (x y e : String)
      → str_append (str_append "," x) e ≡ str_append (str_append "," y) e
      → str_append x e ≡ str_append y e
  comma-cancel x y e h =
      append_cancel_left "," _ _ (sym (append_assoc "," x e) ∙ h ∙ append_assoc "," y e)

  link_text_injective :
      (n n' c c' r r' : String)
      → link_text z n c r ≡ link_text z n' c' r'
      → (n ≡ n') × (c ≡ c') × (r ≡ r')
  link_text_injective n n' c c' r r' h =
      let (contents, h₁) =
        members-split "contentHash" c c' _ _ "}" (append_cancel_left "{" _ _ h) in
      let (positions, h₂) = members-split "position" n n' _ _ "}" (comma-cancel _ _ "}" h₁) in
      let (previouses, _) =
        member-split "previousEventHash" r r' "}" "}" (comma-cancel _ _ "}" h₂) in
      (positions, contents, previouses)

module _ (p : Platform) where
  -- What computeEventHash and computeContentHash take the digest of.
  abbrev pub link_json : StoredEvent → Json
  link_json e = obj (
      field "position" (str (decimal_text p e.position)) (
        field "contentHash" (str e.content_hash)
          (field "previousEventHash" (str e.previous_event_hash) end)))

  abbrev pub content_json : StoredEvent → Json
  content_json e = obj (captured_fields p e.captured end)

  link_json-text :
      (e : StoredEvent)
      → canonical_json p.stringify (link_json e)
        ≡ ok
            (link_text p.stringify (decimal_text p e.position) e.content_hash e.previous_event_hash)
  unfolding canonical_json code_units
  link_json-text e = refl

  -- The bytes of a value's canonical text, if it has one, are fewer than 2^64.
  abbrev pub IsShort : Json → Type 0
  IsShort j = (text : String) → canonical_json p.stringify j ≡ ok text → Fits (p.utf8 text)

  -- One canonical text.
  abbrev pub SameText : Json → Json → Type 0
  SameText j j' =
      (text : String) × (canonical_json p.stringify j ≡ ok text)
      × (canonical_json p.stringify j' ≡ ok text)

  pub canonical_hash-binding :
      (domain : String) (j j' : Json) (h : String)
      → EncodesFaithfully p
      → Fits (p.utf8 domain)
      → IsShort j
      → IsShort j'
      → canonical_hash p domain j ≡ ok h
      → canonical_hash p domain j' ≡ ok h
      → SameText j j' ⊎ Collision p
  unfolding canonical_hash part_bytes
  canonical_hash-binding domain j j' h u named short short' is is' =
      let (t, text, done) = >>=-eq-ok (canonical_json p.stringify j) _ is in
      let (t', text', done') = >>=-eq-ok (canonical_json p.stringify j') _ is' in
      elim (hash_parts_binding p u domain domain (Part.string t ∷ []) (Part.string t' ∷ [])
        (named, (short t text, tt)) (named, (short' t' text', tt))
        (ok_injective (done' ∙ sym done))) [
          | inl same ↦ inl (t, text, text' ∙ ap (λ x. ok x) (sym same.1.0))
          | inr collision ↦ inr collision
        ]

  -- The digests of events with one digest: the same position, content digest and predecessor.
  pub link-binding :
      (e e' : StoredEvent) (h : String)
      → EncodesFaithfully p
      → Delimits p.stringify
      → Fits (p.utf8 "peas/event-chain/v2")
      → IsShort (link_json e)
      → IsShort (link_json e')
      → compute_event_hash p e.position e.content_hash e.previous_event_hash ≡ ok h
      → compute_event_hash p e'.position e'.content_hash e'.previous_event_hash ≡ ok h
      → ((decimal_text p e.position ≡ decimal_text p e'.position)
          × (e.content_hash ≡ e'.content_hash)
          × (e.previous_event_hash ≡ e'.previous_event_hash))
        ⊎ Collision p
  unfolding compute_event_hash
  link-binding e e' h u d named short short' is is' =
      elim (canonical_hash-binding "peas/event-chain/v2" (link_json e) (link_json e') h u named
        short short' is is') [
          | inl (t, text, text') ↦ inl (
              link_text_injective p.stringify d _ _ _ _ _ _
                (ok_injective (sym (link_json-text e') ∙ text' ∙ sym text ∙ link_json-text e)))
          | inr collision ↦ inr collision
        ]
