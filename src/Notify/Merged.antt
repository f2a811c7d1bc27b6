-- ===== src/Notify/Merged.antt =====
-- What canonicalization merges, and what it refuses.
pub mod Collected
use epay_sdk_rust.Common.{
  ◌≡◌, refl, ap, ◌∙◌, not, ◌&&◌, Option, none, some, List, [], ◌∷◌, ◌++◌, arith, if◌then◌else◌,
  Option-cases, is_nil,
}
use epay_sdk_rust.Text.{Text, codes, text_eq}
use epay_sdk_rust.Text.Laws.{text_eq_iff, text_eq_refl, text_compare_eq}
use epay_sdk_rust.BTreeMap
use epay_sdk_rust.BTreeMap.Laws.{
  lookup-insert, insert-IsSorted, lookup-Below, lookup-head, lookup-tail, lookup-nil,
}
use epay_sdk_rust.Error.{ok, notify_error, >>=-eq-ok, guard-eq-ok, branch-eq-ok, ok-injective}
use epay_sdk_rust.Params.{Params, empty, insert, contains, get}
use epay_sdk_rust.Params.Laws.{get-insert}
use epay_sdk_rust.Notify.{NotifySource, RawNotifyEntry}
use epay_sdk_rust.Notify.Canonical.{
  Maps, source_name, target, with_target, is_present, collect, agrees, check_conflicts, add_missing,
  canonicalize,
}
use epay_sdk_rust.Notify.Merged.Collected.{
  same_source, value_of, or_else, lookup-collect, BothSorted, collect-BothSorted, IsUnique,
  collect-IsUnique,
}

-- what a map gives a key, an empty value counted as none
abbrev filled : Option Text → Option Text
filled none = none
filled (some v) = if is_nil v then none else some v

get-add_one :
    (k j v : Text) (p : Params)
    → get (if contains p j then p else insert j v p) k
      ≡ or_else (get p k) (if text_eq j k && not (is_nil v) then some v else none)
unfolding contains
get-add_one k j v p =
    ground
      (arith, get-insert j v p k, text_eq_iff j k, Option-cases (get p k), Option-cases (get p j))

get-add_missing :
    (entries : List (Text × Text)) (p : Params) (k : Text)
    → BTreeMap.IsSorted entries
    → get (add_missing entries p) k ≡ or_else (get p k) (filled (BTreeMap.lookup k entries))
unfolding add_missing
get-add_missing [] p k s = ground (arith, lookup-nil {V = Text} k, Option-cases (get p k))
get-add_missing ((j, v) ∷ entries) p k (b, s) = ground (
  arith,
  get-add_missing entries (if contains p j then p else insert j v p) k s,
  get-add_one k j v p,
  lookup-tail j k v entries b,
  lookup-head j v entries,
  lookup-Below j entries b,
  text_eq_iff j k,
  Option-cases (get p k),
)

get-empty : (k : Text) → get empty k ≡ none
unfolding get
get-empty k = lookup-nil {V = Text} k

add_missing-append :
    (xs ys : List (Text × Text)) (p : Params)
    → add_missing (xs ++ ys) p ≡ add_missing ys (add_missing xs p)
unfolding add_missing
add_missing-append [] ys p = refl
add_missing-append ((k, v) ∷ xs) ys p = add_missing-append xs ys _

check_conflicts-agree :
    (q f : List (Text × Text)) {t : Unit {0}} (k v w : Text)
    → check_conflicts q f ≡ ok t
    → BTreeMap.lookup k q ≡ some v
    → BTreeMap.lookup k f ≡ some w
    → v ≡ w
unfolding check_conflicts BTreeMap.lookup
check_conflicts-agree q [] k v w h hv hw = cc
check_conflicts-agree q ((j, x) ∷ f) k v w h hv hw =
    let (fine, rest) =
      branch-eq-ok (agrees (BTreeMap.lookup j q) x) (check_conflicts q f)
        (notify_error (codes "conflicting query/form field")) h in
    ground (arith, check_conflicts-agree q f k v w rest hv, text_compare_eq k j, text_eq_iff v x)

-- What the merge of the two sources promises.
abbrev pub IsMerged : List RawNotifyEntry → Params → Type 0
IsMerged entries params =
    IsUnique entries
    × ((k v w : Text)
        → value_of NotifySource.query k entries ≡ some v
        → value_of NotifySource.form k entries ≡ some w
        → v ≡ w)
    × ((k : Text)
        → get params k
          ≡ or_else (filled (value_of NotifySource.query k entries))
              (filled (value_of NotifySource.form k entries)))

get-add_both :
    (q f : List (Text × Text)) (k : Text)
    → BTreeMap.IsSorted q
    → BTreeMap.IsSorted f
    → get (add_missing (q ++ f) empty) k
      ≡ or_else (filled (BTreeMap.lookup k q)) (filled (BTreeMap.lookup k f))
get-add_both q f k sq sf = ground (
  arith,
  ap (λ p. get p k) (add_missing-append q f empty),
  get-add_missing f (add_missing q empty) k sf,
  get-add_missing q empty k sq,
  get-empty k,
)

-- Entries that canonicalize have no key twice in one source, no key with two values in the two
-- sources, and every parameter of the result is the query's value, or else the form's, empty
-- values left out.
pub canonicalize-merges :
    (entries : List RawNotifyEntry) {params : Params}
    → canonicalize entries ≡ ok params
    → IsMerged entries params
unfolding canonicalize
canonicalize-merges entries h =
    let start : Maps = record { query_map = []; form_map = [] } in
    let (maps, collected, h₁) = >>=-eq-ok (collect entries start) _ h in
    let (_, agreed, h₂) = >>=-eq-ok (check_conflicts maps.query_map maps.form_map) _ h₁ in
    let (q, f) = collect-BothSorted entries start (tt, tt) collected in
    let in_query : (k : Text)
        → BTreeMap.lookup k maps.query_map ≡ value_of NotifySource.query k entries =
      λ k. ground (
        arith,
        lookup-collect entries start NotifySource.query k collected,
        lookup-nil {V = Text} k,
      ) in
    let in_form : (k : Text)
        → BTreeMap.lookup k maps.form_map ≡ value_of NotifySource.form k entries =
      λ k. ground (
        arith,
        lookup-collect entries start NotifySource.form k collected,
        lookup-nil {V = Text} k,
      ) in
    (
      collect-IsUnique entries start collected,
      (λ k v w hv hw.
          check_conflicts-agree maps.query_map maps.form_map k v w agreed (in_query k ∙ hv)
            (in_form k ∙ hw)),
      (λ k. cc (
        in_query k,
        in_form k,
        get-add_both maps.query_map maps.form_map k q f,
        ok-injective h₂,
      )),
    )
