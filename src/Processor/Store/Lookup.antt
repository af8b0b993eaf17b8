-- ===== src/Processor/Store/Lookup.antt =====
-- Reading a Map after a write.
use peas_engine.Prelude.{
  ◌≡◌, refl, sym, ap, ◌∙◌, String, true, false, Bool-cases, inl, inr, List, [], ◌∷◌, ◌++◌, All,
  none, some, str_eq, str_eq_iff, str_eq_refl, arith, if◌then◌else◌,
}
use peas_engine.Events.Log.{lookup}
use peas_engine.Processor.Store.{put, put_all}

module _ {ℓ} {A : Type ℓ} where
  pub lookup-put_self : (k : String) (a : A) (m : List (String × A)) → lookup k (put k a m) ≡ some a
  unfolding lookup put
  lookup-put_self k a [] = ap (λ b. if b then some a else none) (str_eq_refl k)
  lookup-put_self k a ((j, b) ∷ es) = elim (Bool-cases (str_eq k j)) [
    | inl same ↦ ground (arith, same, str_eq_refl k)
    | inr other ↦ ground (arith, other, lookup-put_self k a es)
  ]

  pub lookup-put_ne :
      (k j : String) (a : A) (m : List (String × A))
      → str_eq j k ≡ false
      → lookup j (put k a m) ≡ lookup j m
  unfolding lookup put
  lookup-put_ne k j a [] ne = ground (arith, ne)
  lookup-put_ne k j a ((i, b) ∷ es) ne = elim (Bool-cases (str_eq k i)) [
    | inl same ↦
        (let other : str_eq j i ≡ false =
            ap (λ x. str_eq j x) (sym ((str_eq_iff k i).0 same)) ∙ ne in
          ground (arith, same, other))
    | inr other ↦ ground (arith, other, lookup-put_ne k j a es ne)
  ]

module _ {ℓ} {A : Type ℓ} where
  pub lookup-append :
      (k : String) (a : A) (m m' : List (String × A))
      → lookup k m ≡ some a
      → lookup k (m ++ m') ≡ some a
  unfolding lookup
  lookup-append k a [] m' h = cc
  lookup-append k a ((j, b) ∷ es) m' h = elim (Bool-cases (str_eq k j)) [
    | inl same ↦ ground (arith, same, h)
    | inr other ↦
        (let rest = ap (λ t. if t then some b else lookup k es) (sym other) ∙ h in
          let found = lookup-append k a es m' rest in ground (arith, other, found))
  ]

  pub lookup-append_none :
      (k : String) (m m' : List (String × A)) → lookup k m ≡ none → lookup k (m ++ m') ≡ lookup k m'
  unfolding lookup
  lookup-append_none k [] m' h = refl
  lookup-append_none k ((j, b) ∷ es) m' h = elim (Bool-cases (str_eq k j)) [
    | inl same ↦ (let wrong = ap (λ t. if t then some b else lookup k es) (sym same) ∙ h in cc)
    | inr other ↦
        (let rest = ap (λ t. if t then some b else lookup k es) (sym other) ∙ h in
          let found = lookup-append_none k es m' rest in ground (arith, other, found))
  ]

-- All entries under a key have one value.
abbrev pub Agrees : String → String → List (String × String) → Type 0
Agrees k a m = All (λ (j, b). str_eq k j ≡ true → b ≡ a) m

pub lookup-Agrees-none :
    (k a : String) (m : List (String × String)) → lookup k m ≡ none → Agrees k a m
unfolding lookup
lookup-Agrees-none k a [] h = tt
lookup-Agrees-none k a ((j, b) ∷ es) h = elim (Bool-cases (str_eq k j)) [
  | inl same ↦ (let wrong = ap (λ t. if t then some b else lookup k es) (sym same) ∙ h in cc)
  | inr other ↦
      (let rest = ap (λ t. if t then some b else lookup k es) (sym other) ∙ h in
        (λ same. cc, lookup-Agrees-none k a es rest))
]

lookup-put_Agrees :
    (k a : String) (j b : String) (m : List (String × String))
    → (str_eq k j ≡ true → b ≡ a)
    → lookup k m ≡ some a
    → lookup k (put j b m) ≡ some a
lookup-put_Agrees k a j b m agrees h = elim (Bool-cases (str_eq k j)) [
  | inl same ↦
      ap (λ x. lookup x (put j b m)) ((str_eq_iff k j).0 same)
      ∙ lookup-put_self j b m
      ∙ ap (λ x. some x) (agrees same)
  | inr other ↦ lookup-put_ne j k b m other ∙ h
]

-- Writing entries that agree on a key keeps its value.
pub lookup-put_all :
    (k a : String) (es m : List (String × String))
    → Agrees k a es
    → lookup k m ≡ some a
    → lookup k (put_all es m) ≡ some a
unfolding put_all
lookup-put_all k a [] m agrees h = h
lookup-put_all k a ((j, b) ∷ es) m agrees h =
    lookup-put_all k a es (put j b m) agrees.1 (lookup-put_Agrees k a j b m agrees.0 h)

-- And gives it that value when one of them is under the key.
pub lookup-put_all_new :
    (k a c : String) (es m : List (String × String))
    → Agrees k a es
    → lookup k es ≡ some c
    → lookup k (put_all es m) ≡ some a
unfolding put_all lookup
lookup-put_all_new k a c [] m agrees h = cc
lookup-put_all_new k a c ((j, b) ∷ es) m agrees h = elim (Bool-cases (str_eq k j)) [
  | inl same ↦
      (let here : lookup k (put j b m) ≡ some a =
          ap (λ x. lookup x (put j b m)) ((str_eq_iff k j).0 same)
          ∙ lookup-put_self j b m
          ∙ ap (λ x. some x) (agrees.0 same) in
        lookup-put_all k a es (put j b m) agrees.1 here)
  | inr other ↦
      (let rest = ap (λ t. if t then some b else lookup k es) (sym other) ∙ h in
        lookup-put_all_new k a c es (put j b m) agrees.1 rest)
]
