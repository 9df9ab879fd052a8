-- ===== src/Base/Throwing.antt =====
-- Thrown errors as values, with `do`.
use mathlib.Core.Path.{◌≡◌, refl}
use mathlib.Core.Bool.{Bool, true, false}

-- What a call leaves: the error that it throws, or the value that it returns.
pub data Result {ℓ} (E : Type 0) (A : Type ℓ) : Type ℓ where
  err : (thrown : E) → Result E A
  ok : (returned : A) → Result E A

infixl 5 ◌>>=◌ ◌>>◌
abbrev pub ◌>>=◌ {ℓ κ} :
    {E : Type 0} {A : Type ℓ} {B : Type κ} (call : Result E A) (next : A → Result E B) → Result E B
err thrown >>= next = err thrown
ok returned >>= next = next returned

abbrev pub ◌>>◌ {κ} :
    {E : Type 0} {B : Type κ} (call : Result E (Unit {0})) (next : Result E B) → Result E B
call >> next = call >>= (λ _. next)

-- `if (test) throw e`.
abbrev pub throw_if : {E : Type 0} (test : Bool) (thrown : E) → Result E (Unit {0})
throw_if false thrown = ok tt
throw_if true thrown = err thrown

-- A sequence that returns has returned from its first call, and then from the rest.
pub >>=-eq-ok {ℓ κ} :
    {E : Type 0} {A : Type ℓ} {B : Type κ} (call : Result E A) (next : A → Result E B) {final : B}
    → (call >>= next) ≡ ok final
    → (returned : A) × (call ≡ ok returned) × (next returned ≡ ok final)
>>=-eq-ok (err thrown) next e = cc
>>=-eq-ok (ok returned) next e = (returned, refl, e)

pub >>-eq-ok {κ} :
    {E : Type 0} {B : Type κ} (call : Result E (Unit {0})) (next : Result E B) {final : B}
    → (call >> next) ≡ ok final
    → (call ≡ ok tt) × (next ≡ ok final)
>>-eq-ok (err thrown) next e = (cc, cc)
>>-eq-ok (ok tt) next e = (refl, e)

pub throw_if-eq-ok :
    {E : Type 0} (test : Bool) (thrown : E) → throw_if test thrown ≡ ok tt → test ≡ false
throw_if-eq-ok false thrown e = refl
throw_if-eq-ok true thrown e = cc

pub ok-injective {ℓ} :
    {E : Type 0} {A : Type ℓ} {a b : A} → ◌≡◌ {A = Result E A} (ok a) (ok b) → a ≡ b
ok-injective e = cc

pub err-ne-ok {ℓ} :
    {E : Type 0} {A : Type ℓ} {thrown : E} {a : A} → ◌≡◌ {A = Result E A} (err thrown) (ok a) → ⊥
err-ne-ok e = cc
