-- ===== src/Prelude/Result.antt =====
-- Code that may raise: the Python exceptions that the modelled code raises itself, as values.
use mathlib.Core.Path.{◌≡◌, refl}
use mathlib.Core.Bool.{Bool, true, false}

pub data Error : Type 0 where
  value_error type_error permission_error runtime_error key_error : Error

-- A call that raises has no value; the caller's state is then the one before the call.
pub data Result {ℓ} (A : Type ℓ) : Type ℓ where
  err : Error → Result A
  ok : A → Result A

module _ {ℓ κ} {A : Type ℓ} {B : Type κ} where
  infixl 5 ◌>>=◌
  abbrev pub ◌>>=◌ : Result A → (A → Result B) → Result B
  err x >>= next = err x
  ok a >>= next = next a

  -- A sequence of two steps that succeeds has a first step that succeeds.
  pub >>=-eq-ok :
      (first : Result A) (next : A → Result B) {y : B}
      → (first >>= next) ≡ ok y
      → (a : A) × (first ≡ ok a) × (next a ≡ ok y)
  >>=-eq-ok (err x) next h = cc
  >>=-eq-ok (ok a) next h = (a, refl, h)

  -- A successful pair has the parts of an equal one.
  pub ok-pair :
      {a a' : A} {b b' : B}
      → ◌≡◌ {A = Result (A × B)} (ok (a, b)) (ok (a', b'))
      → (a' ≡ a) × (b' ≡ b)
  ok-pair h = (cc, cc)

pub ok_inj {ℓ} : {A : Type ℓ} {a b : A} → ◌≡◌ {A = Result A} (ok a) (ok b) → a ≡ b
ok_inj h = cc

-- `if not test: raise x`
abbrev pub guard : Bool → Error → Result (Unit {0})
guard false x = err x
guard true x = ok tt

module _ {ℓ} {B : Type ℓ} where
  infixl 5 ◌>>◌
  abbrev pub ◌>>◌ : Result (Unit {0}) → Result B → Result B
  step >> rest = step >>= λ _. rest

  -- Code behind a test that returns has passed the test.
  pub guard-eq-ok :
      (test : Bool) (x : Error) (rest : Result B) {y : B}
      → (guard test x >> rest) ≡ ok y
      → (test ≡ true) × (rest ≡ ok y)
  guard-eq-ok false x rest h = cc
  guard-eq-ok true x rest h = (refl, h)

-- A value that passes its checks comes back as it is.
pub checked_same {ℓ} :
    {A : Type ℓ} (test : Bool) (x : Error) {a b : A}
    → (guard test x >> ok a) ≡ ok b
    → (test ≡ true) × (a ≡ b)
checked_same false x h = cc
checked_same true x h = (refl, ok_inj h)
