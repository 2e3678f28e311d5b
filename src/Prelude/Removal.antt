-- ===== src/Prelude/Removal.antt =====
-- What `d.pop(k, None)` leaves of a dictionary.
use Prim.Native.Nat.{◌+◌, ◌≤◌}
use Prim.Native.String.{String}
use mathlib.Core.Path.{◌≡◌, refl, ap}
use mathlib.Core.Logic.{inl, inr}
use mathlib.Core.Option.{none, some}
use mathlib.Core.List.{[], ◌∷◌}
use native.Mathlib.Omega.{arith}
use text.Mathlib.Text.{◌==◌}
use text.Mathlib.TextEquality.{eq_iff}
use cognitive_frame_works.Prelude.Tests.{Bool-cases}
use cognitive_frame_works.Prelude.Lists.{length}
use cognitive_frame_works.Prelude.Dict.{Dict, get, remove, get-remove}
use cognitive_frame_works.Prelude.Sorted.{Distinct}

module _ {ℓ} {V : Type ℓ} where
  pub remove_absent : (d : Dict V) (k : String) → get d k ≡ none → remove d k ≡ d
  unfolding get remove
  remove_absent [] k h = refl
  remove_absent ((j, w) ∷ d) k h = elim (Bool-cases (j == k)) [
    | inl same ↦ ground (arith, h, same)
    | inr other ↦ rw other (ap (λ e. (j, w) ∷ e) (remove_absent d k (ground (arith, h, other))))
  ]

  pub length-remove-le : (d : Dict V) (k : String) → length (remove d k) ≤ length d
  unfolding remove
  length-remove-le [] k = omega arith
  length-remove-le ((j, w) ∷ d) k = ground (arith, length-remove-le d k)

  pub length-remove :
      (d : Dict V) (k : String) {v : V}
      → Distinct d
      → get d k ≡ some v
      → length (remove d k) + 1 ≡ length d
  unfolding remove get
  length-remove [] k {v} u h = cc
  length-remove ((j, w) ∷ d) k {v} u h = elim (Bool-cases (j == k)) [
    | inl same ↦
        ground (arith, same, ap length (remove_absent d k (ground (arith, u.0, same, eq_iff j k))))
    | inr other ↦ ground (arith, other, h, length-remove d k {v = v} u.1 (ground (arith, h, other)))
  ]

  pub remove-Distinct : (d : Dict V) (k : String) → Distinct d → Distinct (remove d k)
  unfolding remove
  remove-Distinct [] k u = tt
  remove-Distinct ((j, w) ∷ d) k u = elim (Bool-cases (j == k)) [
    | inl same ↦ rw same (remove-Distinct d k u.1)
    | inr other ↦ rw other (ground (arith, get-remove d k j, u.0), remove-Distinct d k u.1)
  ]
