-- ===== src/Prelude/Results.antt =====
-- A call that may throw: the value, or the message of the error.
use Prim.Native.String.{String}
use mathlib.Core.Path.{◌≡◌, refl}
use mathlib.Core.Logic.{◌⊎◌, inl, inr}
use mathlib.Core.Bool.{Bool, true, false, not}

pub data Result {ℓ} (A : Type ℓ) : Type ℓ where
  err : String → Result A
  ok : A → Result A

abbrev pub is_ok {ℓ} : {A : Type ℓ} → Result A → Bool
is_ok (err message) = false
is_ok (ok value) = true

-- `if (test) throw …`
abbrev pub fail_if : Bool → String → Result (Unit {0})
fail_if false message = ok tt
fail_if true message = err message

-- `if (!test) throw …`
abbrev pub guard : Bool → String → Result (Unit {0})
guard test message = fail_if (not test) message

infixl 5 ◌>>=◌ ◌>>◌
-- The rest of a function after a call that may throw.
abbrev pub ◌>>=◌ {ℓ κ} : {A : Type ℓ} {B : Type κ} → Result A → (A → Result B) → Result B
err message >>= rest = err message
ok value >>= rest = rest value

abbrev pub ◌>>◌ {κ} : {B : Type κ} → Result (Unit {0}) → Result B → Result B
call >> rest = call >>= λ done. rest

-- What a call returned that did not throw.
pub >>=-eq-ok {ℓ κ} :
    {A : Type ℓ} {B : Type κ} (call : Result A) (rest : A → Result B) {b : B}
    → (call >>= rest) ≡ ok b
    → (a : A) × (call ≡ ok a) × (rest a ≡ ok b)
>>=-eq-ok (err message) rest h = cc
>>=-eq-ok (ok value) rest h = (value, refl, h)

pub guard-eq-ok : (b : Bool) (e : String) {u : Unit {0}} → guard b e ≡ ok u → b ≡ true
guard-eq-ok true e h = refl
guard-eq-ok false e h = cc

pub fail_if-eq-ok : (b : Bool) (e : String) {u : Unit {0}} → fail_if b e ≡ ok u → b ≡ false
fail_if-eq-ok true e h = cc
fail_if-eq-ok false e h = refl

pub Result-cases {ℓ} :
    {A : Type ℓ} (r : Result A) → ((a : A) × (r ≡ ok a)) ⊎ ((e : String) × (r ≡ err e))
Result-cases (ok a) = inl (a, refl)
Result-cases (err e) = inr (e, refl)

pub ok_injective {ℓ} : {A : Type ℓ} {a b : A} → ok a ≡ ok b → b ≡ a
ok_injective h = cc

-- Two continuations that agree on what the call returned.
pub >>=-cong_ok {ℓ κ} :
    {A : Type ℓ} {B : Type κ} (call : Result A) (f g : A → Result B)
    → ((a : A) → call ≡ ok a → f a ≡ g a)
    → (call >>= f) ≡ (call >>= g)
>>=-cong_ok (err message) f g h = refl
>>=-cong_ok (ok value) f g h = h value refl

pub >>=-assoc {ℓ κ μ} :
    {A : Type ℓ} {B : Type κ} {C : Type μ} (call : Result A) (f : A → Result B) (g : B → Result C)
    → ((call >>= f) >>= g) ≡ (call >>= λ a. f a >>= g)
>>=-assoc (err message) f g = refl
>>=-assoc (ok value) f g = refl
