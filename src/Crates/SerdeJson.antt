-- ===== src/Crates/SerdeJson.antt =====
-- The package `serde_json`: what the library uses of `Value`.
use epay_sdk_rust.Common.{◌≡◌, Option, none, some, List, [], ◌∷◌, map, arith, if◌then◌else◌}
use epay_sdk_rust.Text.{Text, Bytes, text_eq, split, split_once}
use epay_sdk_rust.Text.Laws.{text_eq_iff}
use epay_sdk_rust.Common.Int.{ℤ}

-- how a `Value` looks to a match; a number comes with its `as_i64`
pub data View : Type 0 where
  number : Option ℤ → View
  string : Text → View
  other : View

-- a decoded value, or the text of the error
pub data Decoded {ℓ} (A : Type ℓ) : Type ℓ where
  value : A → Decoded A
  failed : Text → Decoded A

pub record SerdeJson : Type 1 where
  pub Value : Type 0
  pub from_slice : Bytes → Decoded Value
  -- `value.get(name)`
  pub member : Value → Text → Option Value
  pub view : Value → View
  -- `as_object_mut` and `remove`; a value that is no object stays as it is
  pub remove : Text → Value → Value
  pub member-remove :
      (k j : Text) (v : Value) → member (remove k v) j ≡ (if text_eq k j then none else member v j)

-- An instance in which a document is a list of members with string values, as in `a=1&b=2`.
pub data ToyValue : Type 0 where
  text : Text → ToyValue
  object : List (Text × Text) → ToyValue

unfoldable pub find_member : Text → List (Text × Text) → Option ToyValue
find_member k [] = none
find_member k ((j, v) ∷ members) = if text_eq j k then some (text v) else find_member k members

unfoldable pub drop_member : Text → List (Text × Text) → List (Text × Text)
drop_member k [] = []
drop_member k ((j, v) ∷ members) =
    if text_eq j k then drop_member k members else (j, v) ∷ drop_member k members

unfoldable pub toy_member : ToyValue → Text → Option ToyValue
unfolding find_member
toy_member (text s) k = none
toy_member (object members) k = find_member k members

unfoldable pub toy_remove : Text → ToyValue → ToyValue
unfolding drop_member
toy_remove k (text s) = text s
toy_remove k (object members) = object (drop_member k members)

unfoldable pub toy_view : ToyValue → View
toy_view (text s) = string s
toy_view (object members) = other

unfoldable pub toy_from_slice : Bytes → Decoded ToyValue
unfolding split split_once
toy_from_slice bytes = value (
    object (
      map (λ pair. elim (split_once pair b'=') [ none ↦ (pair, []) | some kv ↦ kv ])
        (split bytes b'&')))

find_member-drop_member :
    (k j : Text) (members : List (Text × Text))
    → find_member j (drop_member k members) ≡ (if text_eq k j then none else find_member j members)
unfolding find_member drop_member
find_member-drop_member k j [] = ground arith
find_member-drop_member k j ((i, v) ∷ members) =
    ground (
      arith,
      find_member-drop_member k j members,
      text_eq_iff i k,
      text_eq_iff i j,
      text_eq_iff k j,
    )

pub toy_member-toy_remove :
    (k j : Text) (v : ToyValue)
    → toy_member (toy_remove k v) j ≡ (if text_eq k j then none else toy_member v j)
unfolding toy_member toy_remove
toy_member-toy_remove k j (text s) = ground arith
toy_member-toy_remove k j (object members) = find_member-drop_member k j members

unfoldable pub toy_json : SerdeJson
unfolding toy_from_slice toy_member toy_view toy_remove
toy_json = record {
  Value = ToyValue;
  from_slice = toy_from_slice;
  member = toy_member;
  view = toy_view;
  remove = toy_remove;
  member-remove = toy_member-toy_remove;
}
