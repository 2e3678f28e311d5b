-- ===== src/Prelude/Attempt.antt =====
-- A step that may raise inside a method that has already changed its object: what was changed
-- stays changed.
use mathlib.Core.Path.{◌≡◌, refl}
use cognitive_frame_works.Prelude.Result.{Result, err, ok}

-- Goes on with the value of a step in the state `s`, or raises in it.
unfoldable pub attempt {ℓ κ μ} :
    {A : Type ℓ} {B : Type κ} {S : Type μ} → Result A → S → (A → Result B × S) → Result B × S
attempt (err x) s next = (err x, s)
attempt (ok a) s next = next a

-- Goes on with the value and the state that a method leaves.
unfoldable pub proceed {ℓ κ μ} :
    {A : Type ℓ} {B : Type κ} {S : Type μ} → Result A × S → (A → S → Result B × S) → Result B × S
proceed (err x, s) next = (err x, s)
proceed (ok a, s) next = next a s

module _ {ℓ κ μ ν} {A : Type ℓ} {B : Type κ} {S : Type μ} (P : S → Type ν) where
  -- What holds before a step that may raise, and after what follows it, holds in the end.
  pub attempt_keeps :
      (r : Result A) (s : S) (next : A → Result B × S)
      → P s
      → ((a : A) → r ≡ ok a → P (next a).1)
      → P (attempt r s next).1
  unfolding attempt
  attempt_keeps (err x) s next h rest = h
  attempt_keeps (ok a) s next h rest = rest a refl

  pub proceed_keeps :
      (m : Result A × S) (next : A → S → Result B × S)
      → P m.1
      → ((a : A) → m.0 ≡ ok a → P (next a m.1).1)
      → P (proceed m next).1
  unfolding proceed
  proceed_keeps (err x, s) next h rest = h
  proceed_keeps (ok a, s) next h rest = rest a refl

module _ {ℓ κ μ} {A : Type ℓ} {B : Type κ} {S : Type μ} where
  -- What returns has returned at every step.
  pub attempt-ok :
      (r : Result A) (s : S) (next : A → Result B × S) {b : B}
      → (attempt r s next).0 ≡ ok b
      → (a : A) × (r ≡ ok a) × (attempt r s next ≡ next a)
  unfolding attempt
  attempt-ok (err x) s next h = cc
  attempt-ok (ok a) s next h = (a, refl, refl)

  pub proceed-ok :
      (m : Result A × S) (next : A → S → Result B × S) {b : B}
      → (proceed m next).0 ≡ ok b
      → (a : A) × (m.0 ≡ ok a) × (proceed m next ≡ next a m.1)
  unfolding proceed
  proceed-ok (err x, s) next h = cc
  proceed-ok (ok a, s) next h = (a, refl, refl)

  -- A step that returns is followed by the next.
  pub attempt_goes_on :
      (r : Result A) (s : S) (next : A → Result B × S) {a : A}
      → r ≡ ok a
      → attempt r s next ≡ next a
  unfolding attempt
  attempt_goes_on r s next h = rw h

  pub proceed_goes_on :
      (m : Result A × S) (next : A → S → Result B × S) {a : A}
      → m.0 ≡ ok a
      → proceed m next ≡ next a m.1
  unfolding proceed
  proceed_goes_on (r, s) next h = rw h
