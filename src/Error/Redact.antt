-- ===== src/Error/Redact.antt =====
-- error.rs: masking `key` and `sign` in text for logs. Positions are counted in characters; the
-- needles are ASCII, so the slices are those of the byte positions in the source.
pub mod Laws
use epay_sdk_rust.Common.{
  ℕ, zero, suc, ◌+◌, Bool, false, ◌||◌, Option, none, some, [], ◌∷◌, ◌++◌, leb, ◌==◌, if◌then◌else◌,
  length, take, drop,
}
use epay_sdk_rust.Text.{Text, codes, trim_start, strip_prefix, find}

abbrev pub key_member : Text
key_member = codes "\"key\""

abbrev pub sign_member : Text
sign_member = codes "\"sign\""

abbrev pub key_needle : Text
key_needle = codes "key="

abbrev pub sign_needle : Text
sign_needle = codes "sign="

-- an occurrence: its position and the needle
abbrev pub Hit : Type 0
Hit = ℕ × Text

-- `s.find(needle).map(|idx| (idx, needle))`
unfoldable pub hit : Text → Text → Option Hit
unfolding find
hit s needle = elim (find s needle) [ none ↦ none | some i ↦ some (i, needle) ]

-- `min_by_key(|(idx, _)| *idx)` of two optional hits; the first wins a tie
unfoldable pub earlier : Option Hit → Option Hit → Option Hit
earlier none b = b
earlier (some a) none = some a
earlier (some a) (some b) = if leb a.0 b.0 then some a else some b

unfoldable pub find_secret_member : Text → Option Hit
unfolding hit earlier
find_secret_member s = earlier (hit s key_member) (hit s sign_member)

-- The source's `i` runs over bytes; a backslash skips the next byte, and the bytes behind it of a
-- longer character are neither a quote nor a backslash.
unfoldable pub json_string_end_from : Text → ℕ → Option ℕ
json_string_end_from [] i = none
json_string_end_from (c ∷ []) i = if c == b'"' then some i else none
json_string_end_from (c ∷ d ∷ s) i =
    let skip = json_string_end_from s (i + 2) in
    let next = json_string_end_from (d ∷ s) (i + 1) in
    if c == b'\\' then skip else if c == b'"' then some i else next

unfoldable pub json_string_end : Text → Option ℕ
unfolding json_string_end_from
json_string_end s = json_string_end_from s 0

-- `value[end + 1..]` behind the closing quote, nothing where there is none
unfoldable pub after_string : Text → Text
unfolding json_string_end
after_string value = elim (json_string_end value) [ none ↦ [] | some end ↦ drop (end + 1) value ]

-- the string value behind a member's name, if the name is followed by a colon and a quote
unfoldable pub member_value : Text → Option Text
unfolding trim_start strip_prefix
member_value tail = elim (strip_prefix (trim_start tail) (codes ":")) [
  | none ↦ none
  | some after_colon ↦ strip_prefix (trim_start after_colon) (codes "\"")
]

-- The loop of `redact_json_secrets`: what it appends to `out`. Each round drops the needle.
unfoldable pub redact_json_from : ℕ → Text → Text
unfolding find_secret_member member_value after_string
redact_json_from zero rest = rest
redact_json_from (suc f) rest = elim (find_secret_member rest) [
  | none ↦ rest
  | some (idx, needle) ↦
      let head = take (idx + length needle) rest in
      let tail = drop (idx + length needle) rest in
      elim (member_value tail) [
        | none ↦ head ++ redact_json_from f tail
        | some value ↦ head ++ codes ":\"***\"" ++ redact_json_from f (after_string value)
      ]
]

unfoldable pub redact_json_secrets : Text → Text
unfolding redact_json_from
redact_json_secrets body = redact_json_from (length body) body

-- `'?' | '&' | ' ' | '\'' | '"'`
unfoldable pub opens_field : ℕ → Bool
opens_field c = c == b'?' || c == b'&' || c == b' ' || c == b'\'' || c == b'"'

-- `'&' | ' ' | '\'' | '"' | ')' | ']'`
unfoldable pub closes_field : ℕ → Bool
closes_field c = c == b'&' || c == b' ' || c == b'\'' || c == b'"' || c == b')' || c == b']'

-- `chars().next_back()`
unfoldable pub last_char : Text → Option ℕ
last_char [] = none
last_char (c ∷ []) = some c
last_char (c ∷ d ∷ s) = last_char (d ∷ s)

-- the filter on a hit: at the start, or behind a character that opens a field
unfoldable pub at_field_start : Text → ℕ → Bool
unfolding opens_field last_char
at_field_start rest idx =
    idx == 0 || elim (last_char (take idx rest)) [ none ↦ false | some c ↦ opens_field c ]

unfoldable pub field_hit : Text → Text → Option Hit
unfolding find at_field_start
field_hit rest needle = elim (find rest needle) [
  | none ↦ none
  | some idx ↦ if at_field_start rest idx then some (idx, needle) else none
]

-- `value[end..]`, from the first character that closes the field
unfoldable pub after_field : Text → Text
unfolding closes_field
after_field [] = []
after_field (c ∷ s) = if closes_field c then c ∷ s else after_field s

-- The loop of `redact_form_secrets`: what it appends to `out`. Each round drops the needle.
unfoldable pub redact_form_from : ℕ → Text → Text
unfolding field_hit earlier after_field
redact_form_from zero rest = rest
redact_form_from (suc f) rest =
    elim (earlier (field_hit rest key_needle) (field_hit rest sign_needle)) [
      | none ↦ rest
      | some (idx, needle) ↦
          take (idx + length needle) rest
          ++ codes "***"
          ++ redact_form_from f (after_field (drop (idx + length needle) rest))
    ]

unfoldable pub redact_form_secrets : Text → Text
unfolding redact_form_from
redact_form_secrets input = redact_form_from (length input) input

unfoldable pub redact_secrets : Text → Text
unfolding redact_json_secrets redact_form_secrets
redact_secrets input = redact_form_secrets (redact_json_secrets input)
