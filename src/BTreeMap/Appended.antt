-- ===== src/BTreeMap/Appended.antt =====
-- Entries that come in key order are appended to a map.
use epay_sdk_rust.Common.{Ordering, ◌≡◌, refl, none, List, [], ◌∷◌, ◌++◌, arith}
use epay_sdk_rust.Text.{Text, text_compare}
use epay_sdk_rust.Text.Laws.{text_compare_swap, text_compare_trans}
use epay_sdk_rust.BTreeMap.{lookup, insert, Below}

module _ {ℓ} {V : Type ℓ} where
  -- every key of the map lies below `k`
  abbrev pub AllBelow : Text → List (Text × V) → Type 0
  AllBelow k [] = Unit
  AllBelow k ((j, _) ∷ m) = (text_compare j k ≡ Ordering.lt) × AllBelow k m

  -- every key of the first map lies below the first key of the second
  abbrev pub Precedes : List (Text × V) → List (Text × V) → Type 0
  Precedes m [] = Unit
  Precedes m ((k, _) ∷ _) = AllBelow k m

  pub lookup-AllBelow : (k : Text) (m : List (Text × V)) → AllBelow k m → lookup k m ≡ none
  unfolding lookup
  lookup-AllBelow k [] h = refl
  lookup-AllBelow k ((j, w) ∷ m) (b, h) =
      ground (arith, text_compare_swap j k, b, lookup-AllBelow k m h)

  pub insert-AllBelow :
      (k : Text) (v : V) (m : List (Text × V)) → AllBelow k m → insert k v m ≡ m ++ (k, v) ∷ []
  unfolding insert
  insert-AllBelow k v [] h = refl
  insert-AllBelow k v ((j, w) ∷ m) (b, h) =
      ground (arith, text_compare_swap j k, b, insert-AllBelow k v m h)

  AllBelow-append :
      (k j : Text) (v : V) (m : List (Text × V))
      → AllBelow k m
      → text_compare k j ≡ Ordering.lt
      → AllBelow j (m ++ (k, v) ∷ [])
  AllBelow-append k j v [] h less = (less, tt)
  AllBelow-append k j v ((i, w) ∷ m) (b, h) less =
      (text_compare_trans i k j b less, AllBelow-append k j v m h less)

  pub Precedes-append :
      (m : List (Text × V)) (k : Text) (v : V) (later : List (Text × V))
      → AllBelow k m
      → Below k later
      → Precedes (m ++ (k, v) ∷ []) later
  Precedes-append m k v [] h below = tt
  Precedes-append m k v ((j, w) ∷ later) h below = AllBelow-append k j v m h below
