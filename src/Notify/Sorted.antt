-- ===== src/Notify/Sorted.antt =====
-- What canonicalizing makes of entries that are sorted already.
use epay_sdk_rust.Common.{
  ◌≡◌, sym, ap, ◌∙◌, Bool, true, false, none, some, List, [], ◌∷◌, ◌++◌, map, append_assoc,
  append-nil, is_nil, All,
}
use epay_sdk_rust.Text.{Text}
use epay_sdk_rust.BTreeMap
use epay_sdk_rust.BTreeMap.Appended.{
  AllBelow, Precedes, lookup-AllBelow, insert-AllBelow, Precedes-append,
}
use epay_sdk_rust.Error.{ok}
use epay_sdk_rust.Params.{Params, insert, get, contains}
use epay_sdk_rust.Params.Valid.{IsValid, HasValue}
use epay_sdk_rust.Notify.{NotifySource, RawNotifyEntry}
use epay_sdk_rust.Notify.Canonical.{collect, check_conflicts, add_missing, canonicalize}

-- an entry of the query
abbrev pub query_entry : Text × Text → RawNotifyEntry
query_entry (k, v) = record { key = k; value = v; source = NotifySource.query }

-- sorted entries of one source are collected as they are
collect-sorted :
    (m acc : List (Text × Text))
    → BTreeMap.IsSorted m
    → Precedes acc m
    → collect (map query_entry m) (record { query_map = acc; form_map = [] })
      ≡ ok (record { query_map = acc ++ m; form_map = [] })
unfolding collect
collect-sorted [] acc s h =
    ap (λ m. ok (record { query_map = m; form_map = [] })) (sym (append-nil acc))
collect-sorted ((k, v) ∷ m) acc (below, s) h =
    rw (lookup-AllBelow k acc h, insert-AllBelow k v acc h)
      (collect-sorted m (acc ++ (k, v) ∷ []) s (Precedes-append acc k v m h below)
        ∙ ap (λ n. ok (record { query_map = n; form_map = [] })) (append_assoc acc ((k, v) ∷ []) m))

contains-AllBelow :
    (k : Text) (acc : List (Text × Text))
    → AllBelow k acc
    → contains (record { inner = acc }) k ≡ false
unfolding contains get
contains-AllBelow k acc h =
    ap (λ o. elim o as (λ x. Bool) [ none ↦ false | some _ ↦ true ]) (lookup-AllBelow k acc h)

insert-filled :
    (k v : Text) (acc : List (Text × Text))
    → is_nil v ≡ false
    → AllBelow k acc
    → insert k v (record { inner = acc }) ≡ record { inner = acc ++ (k, v) ∷ [] }
unfolding insert
insert-filled k v acc filled h = rw (filled, insert-AllBelow k v acc h)

-- and their values, none of them empty, are all inserted
add_missing-sorted :
    (m acc : List (Text × Text))
    → BTreeMap.IsSorted m
    → Precedes acc m
    → All HasValue m
    → add_missing m (record { inner = acc }) ≡ record { inner = acc ++ m }
unfolding add_missing
add_missing-sorted [] acc s h values = ap (λ m. record { inner = m }) (sym (append-nil acc))
add_missing-sorted ((k, v) ∷ m) acc (below, s) h (filled, values) =
    rw (contains-AllBelow k acc h, insert-filled k v acc filled h)
      (add_missing-sorted m (acc ++ (k, v) ∷ []) s (Precedes-append acc k v m h below) values
        ∙ ap (λ n. record { inner = n }) (append_assoc acc ((k, v) ∷ []) m))

-- Sorted entries of one source, with values that are not empty, are canonicalized to themselves.
pub canonicalize-sorted :
    (params : Params) → IsValid params → canonicalize (map query_entry params.inner) ≡ ok params
unfolding canonicalize check_conflicts
canonicalize-sorted params h =
    let none_before = empty_first params.inner in
    rw (collect-sorted params.inner [] h.sorted none_before, append-nil params.inner)
      (ap ok (add_missing-sorted params.inner [] h.sorted none_before h.filled))
  where
    empty_first : (m : List (Text × Text)) → Precedes [] m
    empty_first [] = tt
    empty_first ((k, v) ∷ m) = tt
