-- ===== src/Processor/Store/Pending.antt =====
-- The pending dedupe identities of a commit's loop.
use peas_engine.Prelude.{
  ◌≡◌, sym, ap, ◌∙◌, String, false, Bool-cases, inl, inr, List, [], ◌∷◌, ◌++◌, All-append_last,
  Option, none, some, Option-cases, ok, fail_if, fail_if-eq-ok, >>=-eq-ok, ok_injective, str_eq,
  str_eq_iff, str_eq_refl, if◌then◌else◌, arith,
}
use peas_engine.Digest.{Platform}
use peas_engine.Events.Log.{lookup}
use peas_engine.Processor.{ImmutableOutput, category_of}
use peas_engine.Processor.Hashes.{compute_output_dedupe_identity}
use peas_engine.Processor.Store.{first_of, conflicts, pend_dedupe}
use peas_engine.Processor.Store.Lookup.{
  Agrees, lookup-append, lookup-append_none, lookup-Agrees-none,
}

-- The identity of an output with a dedupe key is recorded with its ID.
abbrev pub Keyed : Platform → List (String × String) → ImmutableOutput → Option String → Type 0
Keyed p m o none = Unit
Keyed p m o (some key) =
    (i : String) × (compute_output_dedupe_identity p o.run_id (category_of o.body) key ≡ ok i)
    × (lookup i m ≡ some o.output_id)

-- What the loop keeps of its pending identities: all entries of one agree, with each other and
-- with the identities of the store.
pub record IsConsistent (known pending : List (String × String)) : Type 0 where
  pub agrees : (j x : String) → lookup j pending ≡ some x → Agrees j x pending
  pub known_agrees : (j x y : String) → lookup j pending ≡ some x → lookup j known ≡ some y → y ≡ x

abbrev Keeps : List (String × String) → List (String × String) → Type 0
Keeps m m' = (j x : String) → lookup j m ≡ some x → lookup j m' ≡ some x

pub some_injective : {A : Type 0} {a b : A} → some a ≡ some b → a ≡ b
some_injective h = cc

-- What the test of pend_dedupe says of an identity.
no_conflict :
    (known pending : Option String) (id : String)
    → conflicts (first_of known pending) id ≡ false
    → ((y : String) → known ≡ some y → y ≡ id)
      × (known ≡ none → (y : String) → pending ≡ some y → y ≡ id)
no_conflict none none id h = (λ y e. cc, λ e y e'. cc)
no_conflict none (some x) id h =
    (λ y e. cc, λ e y e'. sym (some_injective e') ∙ (str_eq_iff x id).0 (ground arith))
no_conflict (some x) pending id h =
    (λ y e. sym (some_injective e) ∙ (str_eq_iff x id).0 (ground arith), λ e y e'. cc)

lookup_one : (i id : String) → lookup i ((i, id) ∷ []) ≡ some id
unfolding lookup
lookup_one i id = ap (λ b. if b then some id else none) (str_eq_refl i)

lookup_other : (j i id : String) → str_eq j i ≡ false → lookup j ((i, id) ∷ []) ≡ none
unfolding lookup
lookup_other j i id h = ap (λ b. if b then some id else none) h

module _ (known pending : List (String × String)) (i id : String) where
  -- The value that an identity has once it is appended.
  append-value :
      IsConsistent known pending
      → conflicts (first_of (lookup i known) (lookup i pending)) id ≡ false
      → (y : String) → lookup i pending ≡ some y
      → y ≡ id
  append-value consistent passes y h =
      let (of_known, of_pending) = no_conflict (lookup i known) (lookup i pending) id passes in
      elim (Option-cases (lookup i known)) [
        | inl absent ↦ of_pending absent y h
        | inr (z, present) ↦ sym (consistent.known_agrees i y z h present) ∙ of_known z present
      ]

  append-Agrees :
      IsConsistent known pending
      → conflicts (first_of (lookup i known) (lookup i pending)) id ≡ false
      → (j x : String) → lookup j (pending ++ (i, id) ∷ []) ≡ some x
      → Agrees j x (pending ++ (i, id) ∷ []) × ((y : String) → lookup j known ≡ some y → y ≡ x)
  append-Agrees consistent passes j x h = elim (Option-cases (lookup j pending)) [
    | inl absent ↦
        (let last = sym (lookup-append_none j pending ((i, id) ∷ []) absent) ∙ h in
          elim (Bool-cases (str_eq j i)) [
            | inl same ↦
                (let j-i = (str_eq_iff j i).0 same in
                  let id-x : id ≡ x =
                    some_injective (
                      sym (lookup_one i id) ∙ ap (λ k. lookup k ((i, id) ∷ [])) (sym j-i) ∙ last) in
                  (
                    All-append_last _ pending (i, id) (lookup-Agrees-none j x pending absent)
                        (λ e. id-x),
                    λ y e.
                        (no_conflict (lookup i known) (lookup i pending) id passes).0 y
                          (ap (λ k. lookup k known) (sym j-i) ∙ e)
                        ∙ id-x,
                  ))
            | inr other ↦ (let wrong = sym (lookup_other j i id other) ∙ last in cc)
          ])
    | inr (z, present) ↦
        (let z-x : z ≡ x =
            some_injective (sym (lookup-append j z pending ((i, id) ∷ []) present) ∙ h) in
          let found = present ∙ ap (λ t. some t) z-x in
          (
            All-append_last _ pending (i, id) (consistent.agrees j x found)
                (λ e. sym (
                  append-value consistent passes x
                    (ap (λ k. lookup k pending) (sym ((str_eq_iff j i).0 e)) ∙ found))),
            λ y e. consistent.known_agrees j x y found e,
          ))
  ]

  pub append-IsConsistent :
      IsConsistent known pending
      → conflicts (first_of (lookup i known) (lookup i pending)) id ≡ false
      → IsConsistent known (pending ++ (i, id) ∷ [])
        × (lookup i (pending ++ (i, id) ∷ []) ≡ some id)
  append-IsConsistent consistent passes = (
    record {
      agrees = λ j x h. (append-Agrees consistent passes j x h).0;
      known_agrees = λ j x y h e. (append-Agrees consistent passes j x h).1 y e;
    },
    elim (Option-cases (lookup i pending)) [
      | inl absent ↦ lookup-append_none i pending ((i, id) ∷ []) absent ∙ lookup_one i id
      | inr (z, present) ↦
          lookup-append i z pending ((i, id) ∷ []) present
          ∙ ap (λ t. some t) (append-value consistent passes z present)
    ],
  )

-- One output keeps what is pending, and is recorded.
pub pend_dedupe-IsConsistent :
    (p : Platform) (known : List (String × String)) (o : ImmutableOutput) (key : Option String)
    (pending pending' : List (String × String))
    → IsConsistent known pending
    → pend_dedupe p known o key pending ≡ ok pending'
    → IsConsistent known pending' × Keeps pending pending' × Keyed p pending' o key
unfolding pend_dedupe
pend_dedupe-IsConsistent p known o none pending pending' consistent h =
    let same : pending' ≡ pending = ok_injective h in rw same (consistent, λ j x e. e, tt)
pend_dedupe-IsConsistent p known o (some key) pending pending' consistent h =
    let (i, identified, h₁) =
      >>=-eq-ok (compute_output_dedupe_identity p o.run_id (category_of o.body) key) _ h in
    let (_, passed, h₂) =
      >>=-eq-ok
        (fail_if (conflicts (first_of (lookup i known) (lookup i pending)) o.output_id)
          "Run-scoped output dedupe conflict")
        _ h₁ in
    let same : pending' ≡ pending ++ (i, o.output_id) ∷ [] = ok_injective h₂ in
    let (consistent', found) =
      append-IsConsistent known pending i o.output_id consistent (fail_if-eq-ok _ _ passed) in
    rw same (
      consistent',
      λ j x e. lookup-append j x pending ((i, o.output_id) ∷ []) e,
      (i, identified, found),
    )
