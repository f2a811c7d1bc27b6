-- ===== src/Notify/Canonical.antt =====
-- notify.rs: `RawNotifyParams::canonicalize`.
use epay_sdk_rust.Common.{Bool, true, false, Option, none, some, List, [], ◌∷◌, ◌++◌, if◌then◌else◌}
use epay_sdk_rust.Text.{Text, codes, text_eq}
use epay_sdk_rust.BTreeMap
use epay_sdk_rust.Error.{Result, ok, err, ◌>>=◌, ◌>>◌, notify_error}
use epay_sdk_rust.Params.{Params, empty, insert, contains}
use epay_sdk_rust.Notify.{NotifySource, RawNotifyEntry, PercentDecode, parse_raw}

-- `source_name`
unfoldable pub source_name : NotifySource → Text
source_name NotifySource.query = codes "query"
source_name NotifySource.form = codes "form"

-- the maps `query` and `form`
abbrev pub Maps : Type 0
Maps = record { query_map : List (Text × Text); form_map : List (Text × Text) }

abbrev pub target : NotifySource → Maps → List (Text × Text)
target NotifySource.query maps = maps.query_map
target NotifySource.form maps = maps.form_map

abbrev pub with_target : NotifySource → List (Text × Text) → Maps → Maps
with_target NotifySource.query m maps = record { query_map = m; form_map = maps.form_map }
with_target NotifySource.form m maps = record { query_map = maps.query_map; form_map = m }

abbrev pub is_present : Option Text → Bool
is_present none = false
is_present (some _) = true

-- the first loop: `insert` returns the value that the key had before
unfoldable pub collect : List RawNotifyEntry → Maps → Result Maps
collect [] maps = ok maps
collect (e ∷ entries) maps =
    if is_present (BTreeMap.lookup e.key (target e.source maps))
    then err (notify_error (codes "duplicate " ++ source_name e.source ++ codes " field"))
    else collect entries
        (with_target e.source (BTreeMap.insert e.key e.value (target e.source maps)) maps)

-- the second loop, over the entries of `form`
abbrev pub agrees : Option Text → Text → Bool
agrees none value = true
agrees (some query_value) value = text_eq query_value value

unfoldable pub check_conflicts : List (Text × Text) → List (Text × Text) → Result (Unit {0})
check_conflicts query_map [] = ok tt
check_conflicts query_map ((key, value) ∷ form_map) =
    if agrees (BTreeMap.lookup key query_map) value
    then check_conflicts query_map form_map
    else err (notify_error (codes "conflicting query/form field"))

-- the third loop
unfoldable pub add_missing : List (Text × Text) → Params → Params
add_missing [] params = params
add_missing ((key, value) ∷ entries) params =
    add_missing entries (if contains params key then params else insert key value params)

-- `RawNotifyParams::canonicalize`
unfoldable pub canonicalize : List RawNotifyEntry → Result Params
canonicalize entries = do
  maps ← collect entries (record { query_map = []; form_map = [] })
  check_conflicts maps.query_map maps.form_map
  ok (add_missing (maps.query_map ++ maps.form_map) empty)

-- `parse_notify_params`
unfoldable pub parse_notify_params : PercentDecode → Option Text → Option Text → Result Params
parse_notify_params p query body = do entries ← parse_raw p query body; canonicalize entries
