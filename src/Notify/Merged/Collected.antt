-- ===== src/Notify/Merged/Collected.antt =====
-- What the first loop of `canonicalize` puts into the map of each source.
use epay_sdk_rust.Common.{
  ◌≡◌, refl, subst, Bool, true, false, ◌&&◌, Option, none, some, List, [], ◌∷◌, ◌++◌, arith,
  if◌then◌else◌,
}
use epay_sdk_rust.Text.{Text, codes, text_eq}
use epay_sdk_rust.Text.Laws.{text_eq_iff, text_eq_refl}
use epay_sdk_rust.BTreeMap
use epay_sdk_rust.BTreeMap.Laws.{lookup-insert, insert-IsSorted}
use epay_sdk_rust.Error.{ok, notify_error, guard-eq-ok, ok-injective}
use epay_sdk_rust.Notify.{NotifySource, RawNotifyEntry}
use epay_sdk_rust.Notify.Canonical.{Maps, source_name, target, with_target, is_present, collect}

abbrev pub same_source : NotifySource → NotifySource → Bool
same_source NotifySource.query NotifySource.query = true
same_source NotifySource.form NotifySource.form = true
same_source _ _ = false

-- the first value that the entries of one source give a key
unfoldable pub value_of : NotifySource → Text → List RawNotifyEntry → Option Text
value_of s k [] = none
value_of s k (e ∷ entries) =
    let rest = value_of s k entries in
    if same_source s e.source && text_eq e.key k then some e.value else rest

abbrev pub or_else : Option Text → Option Text → Option Text
or_else none b = b
or_else (some a) b = some a

lookup-target :
    (s r : NotifySource) (j k v : Text) (maps : Maps)
    → BTreeMap.lookup k (target s (with_target r (BTreeMap.insert j v (target r maps)) maps))
      ≡ (if same_source s r && text_eq j k then some v else BTreeMap.lookup k (target s maps))
lookup-target NotifySource.query NotifySource.query j k v maps = lookup-insert j k v maps.query_map
lookup-target NotifySource.query NotifySource.form j k v maps = refl
lookup-target NotifySource.form NotifySource.query j k v maps = refl
lookup-target NotifySource.form NotifySource.form j k v maps = lookup-insert j k v maps.form_map

same_source-eq : (s r : NotifySource) → same_source s r ≡ true → s ≡ r
same_source-eq NotifySource.query NotifySource.query h = refl
same_source-eq NotifySource.query NotifySource.form h = cc
same_source-eq NotifySource.form NotifySource.query h = cc
same_source-eq NotifySource.form NotifySource.form h = refl

absent : (o : Option Text) → is_present o ≡ false → o ≡ none
absent none h = refl
absent (some v) h = cc

-- a free key of one source is free under every spelling of the two
still_free :
    (s r : NotifySource) (j k : Text) (maps : Maps)
    → same_source s r ≡ true
    → text_eq j k ≡ true
    → BTreeMap.lookup j (target r maps) ≡ none
    → BTreeMap.lookup k (target s maps) ≡ none
still_free s r j k maps same equal free =
    cc (free, same_source-eq s r same, (text_eq_iff j k).0 equal)

pub lookup-collect :
    (entries : List RawNotifyEntry) (maps : Maps) {out : Maps} (s : NotifySource) (k : Text)
    → collect entries maps ≡ ok out
    → BTreeMap.lookup k (target s out)
      ≡ or_else (BTreeMap.lookup k (target s maps)) (value_of s k entries)
unfolding collect value_of
lookup-collect [] maps s k h = ground (arith, ok-injective h)
lookup-collect (e ∷ entries) maps s k h =
    let next = with_target e.source (BTreeMap.insert e.key e.value (target e.source maps)) maps in
    let (free, rest) =
      guard-eq-ok (is_present (BTreeMap.lookup e.key (target e.source maps)))
        (notify_error (codes "duplicate " ++ source_name e.source ++ codes " field"))
        (collect entries next) h in
    ground (
      arith,
      lookup-collect entries next s k rest,
      lookup-target s e.source e.key k e.value maps,
      absent _ free,
      still_free s e.source e.key k maps,
    )

abbrev pub BothSorted : Maps → Type 0
BothSorted maps = BTreeMap.IsSorted maps.query_map × BTreeMap.IsSorted maps.form_map

insert-BothSorted :
    (r : NotifySource) (j v : Text) (maps : Maps)
    → BothSorted maps
    → BothSorted (with_target r (BTreeMap.insert j v (target r maps)) maps)
insert-BothSorted NotifySource.query j v maps (q, f) = (insert-IsSorted j v maps.query_map q, f)
insert-BothSorted NotifySource.form j v maps (q, f) = (q, insert-IsSorted j v maps.form_map f)

pub collect-BothSorted :
    (entries : List RawNotifyEntry) (maps : Maps) {out : Maps}
    → BothSorted maps
    → collect entries maps ≡ ok out
    → BothSorted out
unfolding collect
collect-BothSorted [] maps s h = subst BothSorted (ok-injective h) s
collect-BothSorted (e ∷ entries) maps s h =
    let next = with_target e.source (BTreeMap.insert e.key e.value (target e.source maps)) maps in
    let (_, rest) =
      guard-eq-ok (is_present (BTreeMap.lookup e.key (target e.source maps)))
        (notify_error (codes "duplicate " ++ source_name e.source ++ codes " field"))
        (collect entries next) h in
    collect-BothSorted entries next (insert-BothSorted e.source e.key e.value maps s) rest

-- No source gives a key twice.
abbrev pub IsUnique : List RawNotifyEntry → Type 0
IsUnique [] = Unit
IsUnique (e ∷ entries) = (value_of e.source e.key entries ≡ none) × IsUnique entries

value_of-taken :
    (entries : List RawNotifyEntry) (maps : Maps) {out : Maps} (s : NotifySource) (k v : Text)
    → collect entries maps ≡ ok out
    → BTreeMap.lookup k (target s maps) ≡ some v
    → value_of s k entries ≡ none
unfolding collect value_of
value_of-taken [] maps s k v h taken = refl
value_of-taken (e ∷ entries) maps s k v h taken =
    let next = with_target e.source (BTreeMap.insert e.key e.value (target e.source maps)) maps in
    let (free, rest) =
      guard-eq-ok (is_present (BTreeMap.lookup e.key (target e.source maps)))
        (notify_error (codes "duplicate " ++ source_name e.source ++ codes " field"))
        (collect entries next) h in
    ground (
      arith,
      value_of-taken entries next s k v rest,
      lookup-target s e.source e.key k e.value maps,
      absent _ free,
      still_free s e.source e.key k maps,
    )

same_source_refl : (s : NotifySource) → same_source s s ≡ true
same_source_refl NotifySource.query = refl
same_source_refl NotifySource.form = refl

pub collect-IsUnique :
    (entries : List RawNotifyEntry) (maps : Maps) {out : Maps}
    → collect entries maps ≡ ok out
    → IsUnique entries
unfolding collect
collect-IsUnique [] maps h = tt
collect-IsUnique (e ∷ entries) maps h =
    let next = with_target e.source (BTreeMap.insert e.key e.value (target e.source maps)) maps in
    let (_, rest) =
      guard-eq-ok (is_present (BTreeMap.lookup e.key (target e.source maps)))
        (notify_error (codes "duplicate " ++ source_name e.source ++ codes " field"))
        (collect entries next) h in
    let stored = lookup-target e.source e.source e.key e.key e.value maps in
    (
      value_of-taken entries next e.source e.key e.value rest
          (ground (arith, stored, same_source_refl e.source, text_eq_refl e.key)),
      collect-IsUnique entries next rest,
    )
