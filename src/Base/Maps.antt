-- ===== src/Base/Maps.antt =====
-- A map as an association list, over any type of keys with a Boolean equality.
use mathlib.Core.Path.{◌≡◌, refl, ◌∙◌}
use mathlib.Core.Bool.{Bool, true, false}
use mathlib.Core.Logic.{◌⊎◌, inl, inr}
use mathlib.Core.Option.{Option, none, some}
use mathlib.Core.List.{List, [], ◌∷◌}
use native.Mathlib.Omega.{arith}
use codex_proxy_rs.Base.Tests.{Eq, ◌==◌, ==_iff, ==_self, if◌then◌else◌, Bool-cases}
use codex_proxy_rs.Base.Lists.{filter}

module _ {ℓ κ} {Key : Type ℓ} {Val : Type κ} ⦃e : Eq Key⦄ where
  unfoldable pub lookup : Key → List (Key × Val) → Option Val
  lookup key [] = none
  lookup key ((first, found) ∷ rest) = if first == key then some found else lookup key rest

  -- A key that is there keeps its place.
  unfoldable pub insert : Key → Val → List (Key × Val) → List (Key × Val)
  insert key value [] = (key, value) ∷ []
  insert key value (entry ∷ rest) =
      if entry.0 == key then (key, value) ∷ rest else entry ∷ insert key value rest

  unfoldable pub remove : Key → List (Key × Val) → List (Key × Val)
  remove key [] = []
  remove key (entry ∷ rest) = if entry.0 == key then remove key rest else entry ∷ remove key rest

  pub lookup-insert :
      (key asked : Key) (value : Val) (map : List (Key × Val))
      → lookup asked (insert key value map)
        ≡ (if key == asked then some value else lookup asked map)
  unfolding lookup insert
  lookup-insert key asked value [] = refl
  lookup-insert key asked value ((i, found) ∷ rest) =
      let same = ==_iff i key in
      ground (arith, same, ==_iff i asked, ==_iff key asked, lookup-insert key asked value rest)

  pub lookup-insert_self :
      (key : Key) (value : Val) (map : List (Key × Val))
      → lookup key (insert key value map) ≡ some value
  lookup-insert_self key value map = rw (lookup-insert, ==_self key)

  pub lookup-remove :
      (key asked : Key) (map : List (Key × Val))
      → lookup asked (remove key map) ≡ (if key == asked then none else lookup asked map)
  unfolding lookup remove
  lookup-remove key asked [] = ground arith
  lookup-remove key asked ((i, found) ∷ rest) =
      ground (arith, ==_iff key asked, ==_iff i key, ==_iff i asked, lookup-remove key asked rest)

  pub lookup-remove_self : (key : Key) (map : List (Key × Val)) → lookup key (remove key map) ≡ none
  lookup-remove_self key map = rw (lookup-remove, ==_self key)

  pub lookup-insert_other :
      {key asked : Key} (value : Val) (map : List (Key × Val))
      → (key == asked) ≡ false
      → lookup asked (insert key value map) ≡ lookup asked map
  lookup-insert_other {key} {asked} value map other = lookup-insert key asked value map ∙ rw other

  pub lookup-remove_other :
      {key asked : Key} (map : List (Key × Val))
      → (key == asked) ≡ false
      → lookup asked (remove key map) ≡ lookup asked map
  lookup-remove_other {key} {asked} map other = lookup-remove key asked map ∙ rw other

  pub lookup-filter :
      (p : Key → Bool) (asked : Key) (map : List (Key × Val))
      → lookup asked (filter (λ (entry : Key × Val). p entry.0) map)
        ≡ (if p asked then lookup asked map else none)
  unfolding lookup
  lookup-filter p asked [] = ground arith
  lookup-filter p asked ((i, found) ∷ rest) = elim (Bool-cases (i == asked)) [
    | inl same ↦
        rw ((==_iff i asked).0 same) (at_key (lookup-filter p asked rest) (Bool-cases (p asked)))
    | inr other ↦ elim (Bool-cases (p i)) [
      | inl kept ↦ rw (kept, other) (lookup-filter p asked rest)
      | inr dropped ↦ rw (dropped, other) (lookup-filter p asked rest)
    ]
  ]
    where
      at_key :
          lookup asked (filter (λ (entry : Key × Val). p entry.0) rest)
            ≡ (if p asked then lookup asked rest else none)
          → (p asked ≡ true) ⊎ (p asked ≡ false)
          → lookup asked (
              if p asked
              then (asked, found) ∷ filter (λ (entry : Key × Val). p entry.0) rest
              else filter (λ (entry : Key × Val). p entry.0) rest)
            ≡ (if p asked then (if asked == asked then some found else lookup asked rest) else none)
      at_key ih (inl kept) = rw (kept, ==_self asked) refl
      at_key ih (inr dropped) = rw dropped (rw dropped at ih)
