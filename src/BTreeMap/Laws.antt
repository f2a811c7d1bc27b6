-- ===== src/BTreeMap/Laws.antt =====
-- Laws of the ordered map.
use epay_sdk_rust.Common.{
  Ordering, ◌≡◌, refl, sym, ap, ◌∙◌, none, some, List, [], ◌∷◌, arith, if◌then◌else◌, All,
}
use epay_sdk_rust.Text.{Text, text_eq, text_compare}
use epay_sdk_rust.Text.Laws.{text_eq_iff, text_compare_eq, text_compare_swap, text_compare_trans}
use epay_sdk_rust.BTreeMap.{lookup, insert, erase, Below, IsSorted}

module _ {ℓ} {V : Type ℓ} where
  pub lookup-insert :
      (k j : Text) (v : V) (m : List (Text × V))
      → lookup j (insert k v m) ≡ (if text_eq k j then some v else lookup j m)
  unfolding lookup insert
  lookup-insert k j v [] =
      ground (arith, text_eq_iff k j, text_compare_eq j k, text_compare_swap j k)
  lookup-insert k j v ((i, w) ∷ m) = ground (
    arith,
    lookup-insert k j v m,
    text_eq_iff k j,
    text_compare_eq j k,
    text_compare_eq j i,
    text_compare_eq k i,
    text_compare_swap k i,
    text_compare_swap i k,
    text_compare_swap j i,
    text_compare_swap i j,
    text_compare_swap j k,
    text_compare_swap k j,
    text_compare_trans j k i,
    text_compare_trans j i k,
    text_compare_trans i j k,
    text_compare_trans k i j,
  )

  Below-insert :
      (i k : Text) (v : V) (m : List (Text × V))
      → text_compare i k ≡ Ordering.lt
      → Below i m
      → Below i (insert k v m)
  unfolding insert
  Below-insert i k v [] h b = h
  Below-insert i k v ((j, w) ∷ m) h b = ground (arith, b)

  pub insert-IsSorted :
      (k : Text) (v : V) (m : List (Text × V)) → IsSorted m → IsSorted (insert k v m)
  unfolding insert
  insert-IsSorted k v [] s = (tt, tt)
  insert-IsSorted k v ((j, w) ∷ m) (b, s) = ground (
    arith,
    insert-IsSorted k v m s,
    Below-insert j k v m,
    text_compare_swap j k,
    text_compare_eq k j,
  )

  pub lookup-Below : (k : Text) (m : List (Text × V)) → Below k m → lookup k m ≡ none
  unfolding lookup
  lookup-Below k [] b = refl
  lookup-Below k ((j, v) ∷ m) b = ground arith

  Below-trans :
      (i k : Text) (m : List (Text × V)) → text_compare i k ≡ Ordering.lt → Below k m → Below i m
  Below-trans i k [] h b = tt
  Below-trans i k ((j, v) ∷ m) h b = text_compare_trans i k j h b

  pub lookup-erase :
      (k j : Text) (m : List (Text × V))
      → IsSorted m
      → lookup j (erase k m) ≡ (if text_eq k j then none else lookup j m)
  unfolding lookup erase
  lookup-erase k j [] s = ground arith
  lookup-erase k j ((i, w) ∷ m) (b, s) = ground (
    arith,
    lookup-erase k j m s,
    text_eq_iff k j,
    text_compare_eq j i,
    text_compare_eq k i,
    text_compare_eq k j,
    text_compare_swap j k,
    text_compare_swap j i,
    text_compare_swap k i,
    lookup-Below j m,
    Below-trans j i m,
  )

  Below-erase : (i k : Text) (m : List (Text × V)) → IsSorted m → Below i m → Below i (erase k m)
  unfolding erase
  Below-erase i k [] s b = tt
  Below-erase i k ((j, v) ∷ []) s b = ground (arith, b)
  Below-erase i k ((j, v) ∷ (l, w) ∷ m) s b = ground (arith, b, s, text_compare_trans i j l)

  pub erase-IsSorted : (k : Text) (m : List (Text × V)) → IsSorted m → IsSorted (erase k m)
  unfolding erase
  erase-IsSorted k [] s = tt
  erase-IsSorted k ((j, v) ∷ m) (b, s) =
      ground (arith, b, s, erase-IsSorted k m s, Below-erase j k m s b)

  pub All-insert {κ} :
      (P : Text × V → Type κ) (k : Text) (v : V) (m : List (Text × V))
      → All P m
      → P (k, v)
      → All P (insert k v m)
  unfolding insert
  All-insert P k v [] h p = (p, tt)
  All-insert P k v ((j, w) ∷ m) (q, h) p = ground (arith, q, h, p, All-insert P k v m h p)

  pub All-erase {κ} :
      (P : Text × V → Type κ) (k : Text) (m : List (Text × V)) → All P m → All P (erase k m)
  unfolding erase
  All-erase P k [] h = tt
  All-erase P k ((j, w) ∷ m) (q, h) = ground (arith, q, h, All-erase P k m h)

  pub lookup-head : (k : Text) (v : V) (m : List (Text × V)) → lookup k ((k, v) ∷ m) ≡ some v
  unfolding lookup
  lookup-head k v m = ground (arith, text_compare_eq k k)

  pub lookup-tail :
      (k j : Text) (v : V) (m : List (Text × V))
      → Below k m
      → lookup j m ≡ (if text_eq k j then none else lookup j ((k, v) ∷ m))
  unfolding lookup
  lookup-tail k j v m b = ground (
    arith,
    text_eq_iff k j,
    text_compare_eq j k,
    text_compare_swap j k,
    lookup-Below k m b,
    lookup-Below j m,
    Below-trans j k m,
  )

-- Sorted maps with the same lookups are the same list.
module _ {ℓ} {V : Type ℓ} where
  heads_agree :
      (k j : Text) (v w : V) (m n : List (Text × V))
      → Below k m
      → Below j n
      → ((i : Text) → lookup i ((k, v) ∷ m) ≡ lookup i ((j, w) ∷ n))
      → (k ≡ j) × (v ≡ w)
  unfolding lookup
  heads_agree k j v w m n b c same = ground (
    arith,
    same k,
    same j,
    text_compare_eq k k,
    text_compare_eq j j,
    text_compare_eq k j,
    text_compare_eq j k,
    text_compare_swap k j,
    text_compare_swap j k,
  )

  pub lookup-nil : (k : Text) → lookup {V = V} k [] ≡ none
  unfolding lookup
  lookup-nil k = refl

  pub sorted_ext :
      (m n : List (Text × V))
      → IsSorted m
      → IsSorted n
      → ((k : Text) → lookup k m ≡ lookup k n)
      → m ≡ n
  sorted_ext [] [] s t same = refl
  sorted_ext [] ((j, w) ∷ n) s t same = cc (same j, lookup-nil j, lookup-head j w n)
  sorted_ext ((k, v) ∷ m) [] s t same = cc (same k, lookup-nil k, lookup-head k v m)
  sorted_ext ((k, v) ∷ m) ((j, w) ∷ n) (b, s) (c, t) same =
      let (ek, ev) = heads_agree k j v w m n b c same in
      let tails = sorted_ext m n s t (λ i.
        lookup-tail k i v m b
        ∙ ap (λ o. if text_eq k i then none else o) (same i)
        ∙ ap (λ h. if text_eq h i then none else lookup i ((j, w) ∷ n)) ek
        ∙ sym (lookup-tail j i w n c)) in
      cc (ek, ev, tails)
