-- ===== src/Params/Replay.antt =====
-- The parameter map as a function from keys to values: what a sequence of its operations computes.
use epay_sdk_rust.Common.{
  ◌≡◌, refl, sym, ap, ◌∙◌, not, ◌&&◌, Option, none, some, List, [], ◌∷◌, arith, if◌then◌else◌,
  Option-cases, is_nil,
}
use epay_sdk_rust.Text.{Text, text_eq}
use epay_sdk_rust.Text.Laws.{text_eq_iff}
use epay_sdk_rust.BTreeMap
use epay_sdk_rust.BTreeMap.Laws.{lookup-nil, lookup-head, lookup-tail}
use epay_sdk_rust.Params.{Params, empty, insert, insert_opt, get, remove, merge, insert_all}
use epay_sdk_rust.Params.Laws.{
  get-insert, get-insert_opt, get-remove, last_value, lookup-extend, last_non_empty, get-insert_all,
}
use epay_sdk_rust.Params.Valid.{
  IsValid, empty-IsValid, insert-IsValid, insert_opt-IsValid, remove-IsValid, merge-IsValid,
  insert_all-IsValid, params_ext,
}

-- the operations that change a map
pub data Op : Type 0 where
  put : (key value : Text) → Op
  put_opt : (key : Text) (value : Option Text) → Op
  delete : (key : Text) → Op
  join_with : (pairs : List (Text × Text)) → Op
  put_all : (pairs : List (Text × Text)) → Op

-- what the source does: `join_with` merges the map that is built from the pairs
unfoldable pub apply : Op → Params → Params
apply (put k v) p = insert k v p
apply (put_opt k o) p = insert_opt k o p
apply (delete k) p = (remove k p).0
apply (join_with pairs) p = merge p (insert_all pairs empty)
apply (put_all pairs) p = insert_all pairs p

unfoldable pub run : List Op → Params → Params
run [] p = p
run (op ∷ ops) p = run ops (apply op p)

-- The abstract view: a partial function, in which an empty value is never stored.
abbrev pub View : Type 0
View = Text → Option Text

abbrev pub write : Text → Text → View → View
write k v f j = if text_eq k j && not (is_nil v) then some v else f j

abbrev pub or_before : Option Text → Option Text → Option Text
or_before none before = before
or_before (some v) before = some v

unfoldable pub step : Op → View → View
step (put k v) f j = write k v f j
step (put_opt k none) f j = f j
step (put_opt k (some v)) f j = write k v f j
step (delete k) f j = if text_eq k j then none else f j
step (join_with pairs) f j = or_before (last_non_empty pairs j none) (f j)
step (put_all pairs) f j = last_non_empty pairs j (f j)

unfoldable pub replay : List Op → View → View
replay [] f = f
replay (op ∷ ops) f = replay ops (step op f)

-- in a sorted map, the last value with a key is the one that is looked up
last_value-lookup :
    (m : List (Text × Text)) (j : Text) (found : Option Text)
    → BTreeMap.IsSorted m
    → last_value m j found ≡ or_before (BTreeMap.lookup j m) found
last_value-lookup [] j found s = rw (lookup-nil {V = Text} j)
last_value-lookup ((k, v) ∷ m) j found (b, s) =
    last_value-lookup m j (if text_eq k j then some v else found) s
    ∙ ground (
      arith,
      lookup-tail k j v m b,
      lookup-head k v m,
      text_eq_iff k j,
      Option-cases (BTreeMap.lookup j m),
      Option-cases (BTreeMap.lookup j ((k, v) ∷ m)),
    )

get-merge :
    (p other : Params) (j : Text)
    → IsValid other
    → get (merge p other) j ≡ or_before (get other j) (get p j)
unfolding get merge
get-merge p other j h =
    lookup-extend p.inner other.inner j
    ∙ last_value-lookup other.inner j (BTreeMap.lookup j p.inner) h.sorted

get-empty : (j : Text) → get empty j ≡ none
unfolding get
get-empty j = lookup-nil {V = Text} j

apply-IsValid : (op : Op) {p : Params} → IsValid p → IsValid (apply op p)
unfolding apply
apply-IsValid (put k v) h = insert-IsValid k v h
apply-IsValid (put_opt k o) h = insert_opt-IsValid k o h
apply-IsValid (delete k) h = remove-IsValid k h
apply-IsValid (join_with pairs) h = merge-IsValid h (insert_all-IsValid pairs empty-IsValid)
apply-IsValid (put_all pairs) h = insert_all-IsValid pairs h

get-apply : (op : Op) (p : Params) (j : Text) → IsValid p → get (apply op p) j ≡ step op (get p) j
unfolding apply step
get-apply (put k v) p j h = get-insert k v p j
get-apply (put_opt k none) p j h = get-insert_opt k none p j
get-apply (put_opt k (some v)) p j h = get-insert_opt k (some v) p j
get-apply (delete k) p j h = get-remove k p j h.sorted
get-apply (join_with pairs) p j h =
    get-merge p (insert_all pairs empty) j (insert_all-IsValid pairs empty-IsValid)
    ∙ ap (λ o. or_before o (get p j))
        (get-insert_all pairs empty j ∙ ap (last_non_empty pairs j) (get-empty j))
get-apply (put_all pairs) p j h = get-insert_all pairs p j

-- the view after an operation depends on the view before it alone
last_non_empty-cong :
    (pairs : List (Text × Text)) (j : Text) {a b : Option Text}
    → a ≡ b
    → last_non_empty pairs j a ≡ last_non_empty pairs j b
last_non_empty-cong pairs j h = ap (last_non_empty pairs j) h

step-cong :
    (op : Op) {f g : View} → ((j : Text) → f j ≡ g j) → (j : Text) → step op f j ≡ step op g j
unfolding step
step-cong (put k v) h j = rw (h j)
step-cong (put_opt k none) h j = h j
step-cong (put_opt k (some v)) h j = rw (h j)
step-cong (delete k) h j = rw (h j)
step-cong (join_with pairs) h j = rw (h j)
step-cong (put_all pairs) h j = last_non_empty-cong pairs j (h j)

replay-cong :
    (ops : List Op) {f g : View}
    → ((j : Text) → f j ≡ g j)
    → (j : Text) → replay ops f j ≡ replay ops g j
unfolding replay
replay-cong [] h j = h j
replay-cong (op ∷ ops) h j = replay-cong ops (step-cong op h) j

-- Whatever operations are applied to a valid map, the result is valid and answers every lookup as
-- the same operations on the abstract view do.
pub run-replay :
    (ops : List Op) (p : Params)
    → IsValid p
    → IsValid (run ops p) × ((j : Text) → get (run ops p) j ≡ replay ops (get p) j)
unfolding run replay
run-replay [] p h = (record { sorted = h.sorted; filled = h.filled }, λ j. refl)
run-replay (op ∷ ops) p h =
    let (valid, same) = run-replay ops (apply op p) (apply-IsValid op h) in
    (valid, λ j. same j ∙ replay-cong ops (λ i. get-apply op p i h) j)

-- Two sequences of operations with the same view give one map, whatever their order was.
pub run_ext :
    (ops others : List Op) (p : Params)
    → IsValid p
    → ((j : Text) → replay ops (get p) j ≡ replay others (get p) j)
    → run ops p ≡ run others p
run_ext ops others p h same =
    let (v, a) = run-replay ops p h in
    let (w, b) = run-replay others p h in params_ext v w (λ j. a j ∙ same j ∙ sym (b j))
