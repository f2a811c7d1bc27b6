-- ===== src/Params.antt =====
-- params.rs: the sorted parameter map that is signed and encoded. `form_urlencoded` of the `url`
-- crate is a parameter.
pub mod Laws
pub mod Valid
pub mod Few
pub mod Redacted
pub mod Replay
use epay_sdk_rust.Common.{
  ◌≡◌, refl, Bool, true, false, ◌||◌, Option, none, some, List, [], ◌∷◌, ◌++◌, if◌then◌else◌,
  is_nil,
}
use epay_sdk_rust.Text.{Text, codes, text_eq, join}
use epay_sdk_rust.BTreeMap

pub record Params : Type 0 where
  pub inner : List (Text × Text)

-- `Params::new`
abbrev pub empty : Params
empty = record { inner = [] }

-- `Params::insert`
unfoldable pub insert : Text → Text → Params → Params
unfolding BTreeMap.insert
insert key value params =
    if is_nil value then params else record { inner = BTreeMap.insert key value params.inner }

-- `Params::insert_opt`
unfoldable pub insert_opt : Text → Option Text → Params → Params
unfolding insert
insert_opt key none params = params
insert_opt key (some v) params = insert key v params

-- `Params::get`
unfoldable pub get : Params → Text → Option Text
unfolding BTreeMap.lookup
get params key = BTreeMap.lookup key params.inner

-- `Params::contains`
unfoldable pub contains : Params → Text → Bool
unfolding get
contains params key = elim (get params key) [ none ↦ false | some _ ↦ true ]

-- `Params::remove`: the map, and the value that it held
unfoldable pub remove : Text → Params → Params × Option Text
unfolding get BTreeMap.erase
remove key params = (record { inner = BTreeMap.erase key params.inner }, get params key)

-- `Params::merge`: `BTreeMap::extend` with the other map's entries
unfoldable pub extend : List (Text × Text) → List (Text × Text) → List (Text × Text)
unfolding BTreeMap.insert
extend m [] = m
extend m ((k, v) ∷ entries) = extend (BTreeMap.insert k v m) entries

unfoldable pub merge : Params → Params → Params
unfolding extend
merge params other = record { inner = extend params.inner other.inner }

-- `FromIterator`, also for `From<BTreeMap>` and `From<HashMap>`
unfoldable pub insert_all : List (Text × Text) → Params → Params
unfolding insert
insert_all [] params = params
insert_all ((k, v) ∷ pairs) params = insert_all pairs (insert k v params)

unfoldable pub from_iter : List (Text × Text) → Params
unfolding insert_all
from_iter pairs = insert_all pairs empty

-- the keys that `sign_payload` skips
unfoldable pub is_unsigned : Text → Bool
unfolding text_eq
is_unsigned k = text_eq k (codes "sign") || text_eq k (codes "sign_type")

-- the loop of `sign_payload`
unfoldable pub parts : List (Text × Text) → List Text
unfolding is_unsigned
parts [] = []
parts ((k, v) ∷ m) = if is_unsigned k then parts m else (k ++ codes "=" ++ v) ∷ parts m

-- `Params::sign_payload`
unfoldable pub sign_payload : Params → Text
unfolding parts join
sign_payload params = join (parts params.inner) (codes "&")

-- `is_secret`
unfoldable pub is_secret : Text → Bool
unfolding text_eq
is_secret key = text_eq key (codes "key") || text_eq key (codes "sign")

test_sign_payload :
    sign_payload (
      from_iter (
        (codes "c", codes "3")
        ∷ (codes "a", codes "1")
        ∷ (codes "sign", codes "de")
        ∷ (codes "b", codes "2")
        ∷ (codes "empty", [])
        ∷ []))
    ≡ codes "a=1&b=2&c=3"
unfolding sign_payload from_iter
test_sign_payload = refl
