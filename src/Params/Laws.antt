-- ===== src/Params/Laws.antt =====
-- What a parameter map holds after each operation.
use epay_sdk_rust.Common.{
  ◌≡◌, refl, ap, ◌∙◌, not, ◌&&◌, Option, none, some, List, [], ◌∷◌, arith, if◌then◌else◌, is_nil,
}
use epay_sdk_rust.Text.{Text, text_eq}
use epay_sdk_rust.BTreeMap
use epay_sdk_rust.BTreeMap.Laws.{lookup-insert, lookup-erase}
use epay_sdk_rust.Params.{Params, insert, insert_opt, get, remove, extend, insert_all}

-- A non-empty value is stored under its key, an empty one is dropped, and other keys are untouched.
pub get-insert :
    (k v : Text) (p : Params) (j : Text)
    → get (insert k v p) j ≡ (if text_eq k j && not (is_nil v) then some v else get p j)
unfolding get insert
get-insert k [] p j = ground arith
get-insert k (c ∷ v) p j = ground (arith, lookup-insert k j (c ∷ v) p.inner)

pub get-insert_opt :
    (k : Text) (o : Option Text) (p : Params) (j : Text)
    → get (insert_opt k o p) j ≡ elim o [
      | none ↦ get p j
      | some v ↦ if text_eq k j && not (is_nil v) then some v else get p j
    ]
unfolding insert_opt
get-insert_opt k none p j = refl
get-insert_opt k (some v) p j = get-insert k v p j

pub get-remove :
    (k : Text) (p : Params) (j : Text)
    → BTreeMap.IsSorted p.inner
    → get (remove k p).0 j ≡ (if text_eq k j then none else get p j)
unfolding get remove
get-remove k p j s = lookup-erase k j p.inner s

-- the last pair with the key
abbrev pub last_value : List (Text × Text) → Text → Option Text → Option Text
last_value [] j found = found
last_value ((k, v) ∷ pairs) j found = last_value pairs j (if text_eq k j then some v else found)

pub lookup-extend :
    (m entries : List (Text × Text)) (j : Text)
    → BTreeMap.lookup j (extend m entries) ≡ last_value entries j (BTreeMap.lookup j m)
unfolding extend
lookup-extend m [] j = refl
lookup-extend m ((k, v) ∷ entries) j =
    lookup-extend (BTreeMap.insert k v m) entries j
    ∙ ap (last_value entries j) (lookup-insert k j v m)

-- the last non-empty value among the pairs with the key
abbrev pub last_non_empty : List (Text × Text) → Text → Option Text → Option Text
last_non_empty [] j found = found
last_non_empty ((k, v) ∷ pairs) j found =
    last_non_empty pairs j (if text_eq k j && not (is_nil v) then some v else found)

pub get-insert_all :
    (pairs : List (Text × Text)) (p : Params) (j : Text)
    → get (insert_all pairs p) j ≡ last_non_empty pairs j (get p j)
unfolding insert_all
get-insert_all [] p j = refl
get-insert_all ((k, v) ∷ pairs) p j =
    get-insert_all pairs (insert k v p) j ∙ ap (last_non_empty pairs j) (get-insert k v p j)
