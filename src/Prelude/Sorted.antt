-- ===== src/Prelude/Sorted.antt =====
-- `sorted(d.items())` of a dictionary, and dictionaries filled from its items.
use text.Mathlib.TextPositions.{compare_refl, eq_refl}
use Prim.Native.String.{String}
use mathlib.Core.Path.{◌≡◌, refl, ◌∙◌}
use mathlib.Core.Logic.{◌≢◌, inl, inr}
use mathlib.Core.Bool.{true}
use mathlib.Core.Option.{Option, none, some}
use mathlib.Core.List.{[], ◌∷◌}
use native.Mathlib.Omega.{arith}
use text.Mathlib.Text.{◌==◌}
use text.Mathlib.TextEquality.{eq_iff}
use cognitive_frame_works.Prelude.Tests.{if◌then◌else◌, Bool-cases}
use cognitive_frame_works.Prelude.Lists.{All}
use cognitive_frame_works.Prelude.Texts.{str_ltb}
use cognitive_frame_works.Prelude.Dict.{Dict, get, put, get-put}

pub str_ltb-ne : (a b : String) → str_ltb a b ≡ true → a ≢ b
str_ltb-ne a b h e = cc (compare_refl b, h)

-- No key is listed twice.
abbrev pub Distinct {ℓ} : {V : Type ℓ} → Dict V → Type ℓ
Distinct [] = Unit
Distinct ((k, v) ∷ d) = (get d k ≡ none) × Distinct d

module _ {ℓ} {V : Type ℓ} where
  unfoldable pub insert_item : String → V → Dict V → Dict V
  insert_item k v [] = (k, v) ∷ []
  insert_item k v ((j, w) ∷ d) =
      if str_ltb j k then (j, w) ∷ insert_item k v d else (k, v) ∷ (j, w) ∷ d

  -- `sorted(d.items())`
  unfoldable pub sorted_items : Dict V → Dict V
  unfolding insert_item
  sorted_items [] = []
  sorted_items ((k, v) ∷ d) = insert_item k v (sorted_items d)

  get-insert_item :
      (k j : String) (v : V) (d : Dict V)
      → get (insert_item k v d) j ≡ (if k == j then some v else get d j)
  unfolding insert_item get
  get-insert_item k j v [] = refl
  get-insert_item k j v ((i, w) ∷ d) =
      ground (arith, get-insert_item k j v d, eq_iff k j, eq_iff i j, str_ltb-ne i k)

  -- Sorting keeps every entry.
  pub get-sorted_items : (d : Dict V) (j : String) → get (sorted_items d) j ≡ get d j
  unfolding sorted_items get
  get-sorted_items [] j = refl
  get-sorted_items ((k, v) ∷ d) j =
      get-insert_item k j v (sorted_items d) ∙ rw (get-sorted_items d j)

  insert_item-Distinct :
      (k : String) (v : V) (d : Dict V) → get d k ≡ none → Distinct d → Distinct (insert_item k v d)
  unfolding insert_item get
  insert_item-Distinct k v [] h u = (refl, tt)
  insert_item-Distinct k v ((i, w) ∷ d) h u =
      let absent : get d k ≡ none = ground (arith, h) in
      elim (Bool-cases (str_ltb i k)) [
        | inl below ↦ rw below (
          ground (arith, get-insert_item k i v d, eq_iff k i, eq_iff i k, h, u.0),
          insert_item-Distinct k v d absent u.1,
        )
        | inr above ↦ rw above (h, u)
      ]

  pub sorted_items-Distinct : (d : Dict V) → Distinct d → Distinct (sorted_items d)
  unfolding sorted_items
  sorted_items-Distinct [] u = tt
  sorted_items-Distinct ((k, v) ∷ d) u =
      insert_item-Distinct k v (sorted_items d) (get-sorted_items d k ∙ u.0)
        (sorted_items-Distinct d u.1)

  pub put-Distinct : (d : Dict V) (k : String) (v : V) → Distinct d → Distinct (put d k v)
  unfolding put get
  put-Distinct [] k v u = (refl, tt)
  put-Distinct ((j, w) ∷ d) k v u = elim (Bool-cases (j == k)) [
    | inl same ↦ rw same u
    | inr other ↦ rw other (
      ground (arith, get-put d k j v, eq_iff j k, eq_iff k j, u.0, other),
      put-Distinct d k v u.1,
    )
  ]

  -- `for k, v in items: d[k] = v`
  unfoldable pub put_all : Dict V → Dict V → Dict V
  put_all d [] = d
  put_all d ((k, v) ∷ items) = put_all (put d k v) items

  abbrev pub or_get : Option V → Option V → Option V
  or_get none o = o
  or_get (some v) o = some v

  pub get-put_all :
      (d items : Dict V) (j : String)
      → Distinct items
      → get (put_all d items) j ≡ or_get (get items j) (get d j)
  unfolding put_all get
  get-put_all d [] j u = refl
  get-put_all d ((k, v) ∷ items) j u =
      get-put_all (put d k v) items j u.1 ∙ ground (arith, get-put d k j v, u.0, eq_iff k j)

  -- What holds of every value that can be looked up holds of every item.
  pub items_hold {κ} :
      (P : V → Type κ) (d : Dict V)
      → Distinct d
      → ((k : String) (v : V) → get d k ≡ some v → P v)
      → All (λ e. P e.1) d
  unfolding get
  items_hold P [] u h = tt
  items_hold P ((k, v) ∷ d) u h = (
    h k v (rw (eq_refl k)),
    items_hold P d u.1 (λ j w g. h j w (ground (arith, g, u.0, eq_iff k j))),
  )
