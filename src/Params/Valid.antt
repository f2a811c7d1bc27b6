-- ===== src/Params/Valid.antt =====
-- The invariant of the parameter map, and that it fixes the representation.
use epay_sdk_rust.Common.{
  ◌≡◌, refl, ap, false, Option, none, some, List, [], ◌∷◌, arith, is_nil, All,
}
use epay_sdk_rust.Text.{Text, text_eq}
use epay_sdk_rust.Text.Laws.{text_eq_iff}
use epay_sdk_rust.BTreeMap
use epay_sdk_rust.BTreeMap.Laws.{insert-IsSorted, erase-IsSorted, All-insert, All-erase, sorted_ext}
use epay_sdk_rust.Params.{
  Params, empty, insert, insert_opt, get, remove, extend, merge, insert_all, from_iter,
}
use epay_sdk_rust.Params.Laws.{get-insert}

abbrev pub HasValue : Text × Text → Type 0
HasValue e = is_nil e.1 ≡ false

-- Keys increase, and no value is empty.
pub record IsValid (p : Params) : Type 0 where
  pub sorted : BTreeMap.IsSorted p.inner
  pub filled : All HasValue p.inner

pub empty-IsValid : IsValid empty
empty-IsValid = record { sorted = tt; filled = tt }

pub insert-IsValid : (k v : Text) {p : Params} → IsValid p → IsValid (insert k v p)
unfolding insert
insert-IsValid k [] {p} h = record { sorted = h.sorted; filled = h.filled }
insert-IsValid k (c ∷ v) {p} h = record {
  sorted = insert-IsSorted k (c ∷ v) p.inner h.sorted;
  filled = All-insert HasValue k (c ∷ v) p.inner h.filled refl;
}

pub insert_opt-IsValid :
    (k : Text) (o : Option Text) {p : Params} → IsValid p → IsValid (insert_opt k o p)
unfolding insert_opt
insert_opt-IsValid k none h = record { sorted = h.sorted; filled = h.filled }
insert_opt-IsValid k (some v) h = insert-IsValid k v h

pub remove-IsValid : (k : Text) {p : Params} → IsValid p → IsValid (remove k p).0
unfolding remove
remove-IsValid k {p} h = record {
  sorted = erase-IsSorted k p.inner h.sorted;
  filled = All-erase HasValue k p.inner h.filled;
}

extend-IsSorted :
    (m entries : List (Text × Text)) → BTreeMap.IsSorted m → BTreeMap.IsSorted (extend m entries)
unfolding extend
extend-IsSorted m [] s = s
extend-IsSorted m ((k, v) ∷ entries) s =
    extend-IsSorted (BTreeMap.insert k v m) entries (insert-IsSorted k v m s)

extend-filled :
    (m entries : List (Text × Text))
    → All HasValue m
    → All HasValue entries
    → All HasValue (extend m entries)
unfolding extend
extend-filled m [] h _ = h
extend-filled m ((k, v) ∷ entries) h (hv, hs) =
    extend-filled (BTreeMap.insert k v m) entries (All-insert HasValue k v m h hv) hs

pub merge-IsValid : {p other : Params} → IsValid p → IsValid other → IsValid (merge p other)
unfolding merge
merge-IsValid {p} {other} h k = record {
  sorted = extend-IsSorted p.inner other.inner h.sorted;
  filled = extend-filled p.inner other.inner h.filled k.filled;
}

pub insert_all-IsValid :
    (pairs : List (Text × Text)) {p : Params} → IsValid p → IsValid (insert_all pairs p)
unfolding insert_all
insert_all-IsValid [] h = record { sorted = h.sorted; filled = h.filled }
insert_all-IsValid ((k, v) ∷ pairs) h = insert_all-IsValid pairs (insert-IsValid k v h)

pub from_iter-IsValid : (pairs : List (Text × Text)) → IsValid (from_iter pairs)
unfolding from_iter
from_iter-IsValid pairs = insert_all-IsValid pairs empty-IsValid

-- Two maps that answer every lookup alike are the same map.
pub params_ext : {p q : Params} → IsValid p → IsValid q → ((k : Text) → get p k ≡ get q k) → p ≡ q
unfolding get
params_ext {p} {q} hp hq same =
    ap (λ m. record { inner = m }) (sorted_ext p.inner q.inner hp.sorted hq.sorted same)

-- Inserting under different keys gives one map in either order.
pub insert-insert :
    {p : Params} (k v j w : Text)
    → IsValid p
    → text_eq k j ≡ false
    → insert k v (insert j w p) ≡ insert j w (insert k v p)
insert-insert {p} k v j w h ne =
    params_ext (insert-IsValid k v (insert-IsValid j w h))
      (insert-IsValid j w (insert-IsValid k v h))
      λ i. ground (
        arith,
        get-insert k v (insert j w p) i,
        get-insert j w p i,
        get-insert j w (insert k v p) i,
        get-insert k v p i,
        text_eq_iff k i,
        text_eq_iff j i,
        text_eq_iff k j,
      )
