-- ===== src/BTreeMap.antt =====
-- The standard library's `BTreeMap<String, V>` as the list of its entries in key order.
pub mod Laws
pub mod Appended
use epay_sdk_rust.Common.{Ordering, ◌≡◌, Option, none, some, List, [], ◌∷◌}
use epay_sdk_rust.Text.{Text, text_compare}

module _ {ℓ} {V : Type ℓ} where
  unfoldable pub lookup : Text → List (Text × V) → Option V
  unfolding text_compare
  lookup k [] = none
  lookup k ((j, v) ∷ m) = elim (text_compare k j) [
    | Ordering.lt ↦ none
    | Ordering.eq ↦ some v
    | Ordering.gt ↦ lookup k m
  ]

  unfoldable pub insert : Text → V → List (Text × V) → List (Text × V)
  unfolding text_compare
  insert k v [] = (k, v) ∷ []
  insert k v ((j, w) ∷ m) = elim (text_compare k j) [
    | Ordering.lt ↦ (k, v) ∷ (j, w) ∷ m
    | Ordering.eq ↦ (k, v) ∷ m
    | Ordering.gt ↦ (j, w) ∷ insert k v m
  ]

  unfoldable pub erase : Text → List (Text × V) → List (Text × V)
  unfolding text_compare
  erase k [] = []
  erase k ((j, w) ∷ m) = elim (text_compare k j) [
    | Ordering.lt ↦ (j, w) ∷ m
    | Ordering.eq ↦ m
    | Ordering.gt ↦ (j, w) ∷ erase k m
  ]

  -- the first key, if there is one, lies above `k`
  abbrev pub Below : Text → List (Text × V) → Type 0
  Below k [] = Unit
  Below k ((j, _) ∷ _) = text_compare k j ≡ Ordering.lt

  abbrev pub IsSorted : List (Text × V) → Type 0
  IsSorted [] = Unit
  IsSorted ((k, _) ∷ m) = Below k m × IsSorted m
