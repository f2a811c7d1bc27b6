-- ===== src/Text/IpAddr.antt =====
-- Rust's `IpAddr::from_str`: the parser of `core::net::parser`. A reader takes the bytes that are
-- left and returns what it read with those behind it; a failed reader leaves its input alone.
pub mod Show
use epay_sdk_rust.Common.{
  ℕ, zero, suc, ◌+◌, ◌-◌, ◌*◌, ◌≡◌, refl, Bool, true, false, not, ◌&&◌, ◌||◌, Option, none, some,
  List, [], ◌∷◌, ◌++◌, map, length, ltb, leb, ◌==◌, if◌then◌else◌,
}
use epay_sdk_rust.Text.{Text, Bytes, codes, as_bytes}

-- `IpAddr`: the octets or the 16-bit groups
pub data IpAddr : Type 0 where
  v4 : (octets : List ℕ) → IpAddr
  v6 : (groups : List ℕ) → IpAddr

-- the value of a digit in the radix, if it is one
unfoldable pub to_digit : ℕ → ℕ → Option ℕ
to_digit radix c =
    if leb b'0' c && leb c b'9'
    then some (c - b'0')
    else if leb b'a' c && leb c b'f' && ltb 10 radix
    then some (c - b'a' + 10)
    else if leb b'A' c && leb c b'F' && ltb 10 radix
    then some (c - b'A' + 10)
    else none

-- The digits at the front: their number, their value, and the rest.
unfoldable pub read_digits : ℕ → Bytes → ℕ → ℕ → ℕ × ℕ × Bytes
read_digits radix [] count value = (count, value, [])
read_digits radix (c ∷ s) count value = elim (to_digit radix c) [
  | none ↦ (count, value, c ∷ s)
  | some d ↦ read_digits radix s (suc count) (value * radix + d)
]

abbrev pub starts_with_zero : Bytes → Bool
starts_with_zero [] = false
starts_with_zero (c ∷ s) = c == b'0'

-- `read_number`, with the limit of the integer type that it reads
unfoldable pub read_number : ℕ → ℕ → Bool → ℕ → Bytes → Option (ℕ × Bytes)
read_number radix max_digits allow_zero_prefix limit s =
    let (count, value, rest) = read_digits radix s 0 0 in
    if count == 0
      || ltb max_digits count
      || leb limit value
      || not allow_zero_prefix && starts_with_zero s && ltb 1 count
    then none
    else some (value, rest)

abbrev pub expect : ℕ → Bytes → Option Bytes
expect c [] = none
expect c (d ∷ s) = if d == c then some s else none

-- `read_separator`: the separator stands before every part but the first
unfoldable pub read_separator :
    {A : Type 0} → ℕ → ℕ → (Bytes → Option (A × Bytes)) → Bytes → Option (A × Bytes)
read_separator sep zero inner s = inner s
read_separator sep (suc index) inner s = elim (expect sep s) [
  | none ↦ none
  | some rest ↦ inner rest
]

abbrev pub read_octet : Bytes → Option (ℕ × Bytes)
read_octet s = read_number 10 3 false 256 s

-- the octets of `read_ipv4_addr` from `index` on; `left` is their number
unfoldable pub read_octets : ℕ → ℕ → Bytes → Option (List ℕ × Bytes)
read_octets zero index s = some ([], s)
read_octets (suc left) index s = elim (read_separator b'.' index read_octet s) [
  | none ↦ none
  | some (octet, rest) ↦ elim (read_octets left (suc index) rest) [
    | none ↦ none
    | some (octets, rest') ↦ some (octet ∷ octets, rest')
  ]
]

unfoldable pub read_ipv4_addr : Bytes → Option (List ℕ × Bytes)
read_ipv4_addr s = read_octets 4 0 s

abbrev pub read_group : Bytes → Option (ℕ × Bytes)
read_group s = read_number 16 4 true 65536 s

-- pairs of octets as groups
abbrev pub groups_of : List ℕ → List ℕ
groups_of [] = []
groups_of (a ∷ []) = []
groups_of (a ∷ b ∷ octets) = (a * 256 + b) ∷ groups_of octets

-- `read_groups` from `index` on, `left` groups before the limit: the groups read, whether the last
-- two were an IPv4 address, and the rest
unfoldable pub read_groups : ℕ → ℕ → Bytes → List ℕ × Bool × Bytes
read_groups zero index s = ([], false, s)
read_groups (suc left) index s =
    let embedded : Option (List ℕ × Bytes) =
      if leb 1 left then read_separator b':' index read_ipv4_addr s else none in
    elim embedded [
      | some (octets, rest) ↦ (groups_of octets, true, rest)
      | none ↦ elim (read_separator b':' index read_group s) [
        | none ↦ ([], false, s)
        | some (group, rest) ↦
            let (groups, is_ipv4, rest') = read_groups left (suc index) rest in
            (group ∷ groups, is_ipv4, rest')
      ]
    ]

abbrev pub zeros : ℕ → List ℕ
zeros zero = []
zeros (suc n) = 0 ∷ zeros n

-- the second half of an address with `::`
unfoldable pub read_tail : List ℕ → Bytes → Option (List ℕ × Bytes)
read_tail head s = elim (expect b':' s) [
  | none ↦ none
  | some rest ↦ elim (expect b':' rest) [
    | none ↦ none
    | some rest' ↦
        let (tail, _, end) = read_groups (8 - (length head + 1)) 0 rest' in
        some (head ++ zeros (8 - length head - length tail) ++ tail, end)
  ]
]

unfoldable pub read_ipv6_addr : Bytes → Option (List ℕ × Bytes)
read_ipv6_addr s =
    let (head, head_ipv4, rest) = read_groups 8 0 s in
    if length head == 8 then some (head, rest) else if head_ipv4 then none else read_tail head rest

-- the reader has to have come to the end
abbrev pub at_end : {A : Type 0} → Option (A × Bytes) → Option A
at_end none = none
at_end (some (a, [])) = some a
at_end (some (a, _ ∷ _)) = none

abbrev pub as_v6 : Option (List ℕ) → Option IpAddr
as_v6 none = none
as_v6 (some groups) = some (IpAddr.v6 groups)

-- `str::parse::<IpAddr>`
unfoldable pub parse_ip : Text → Option IpAddr
parse_ip s = elim (read_ipv4_addr (as_bytes s)) [
  | some read ↦ elim (at_end (some read)) [ none ↦ none | some octets ↦ some (IpAddr.v4 octets) ]
  | none ↦ as_v6 (at_end (read_ipv6_addr (as_bytes s)))
]

-- `str::parse::<IpAddr>().is_ok()`
unfoldable pub is_ip_addr : Text → Bool
is_ip_addr s = elim (parse_ip s) [ none ↦ false | some _ ↦ true ]

test_v6 : parse_ip (codes "1::0a:2") ≡ some (IpAddr.v6 (1 ∷ 0 ∷ 0 ∷ 0 ∷ 0 ∷ 0 ∷ 10 ∷ 2 ∷ []))
unfolding parse_ip read_ipv4_addr read_ipv6_addr read_octets read_groups read_tail read_number
    read_separator read_digits to_digit as_bytes
test_v6 = refl

test_ip :
    (map is_ip_addr (
      codes "127.0.0.1"
      ∷ codes "1.2.3.256"
      ∷ codes "01.2.3.4"
      ∷ codes "::1"
      ∷ codes "::ffff:1.2.3.4"
      ∷ codes "1:2:3:4:5:6:7:8"
      ∷ codes "1:2:3:4:5:6:7:8:9"
      ∷ codes "fe80::g"
      ∷ codes "1.2.3"
      ∷ codes ""
      ∷ []))
    ≡ true ∷ false ∷ false ∷ true ∷ true ∷ true ∷ false ∷ false ∷ false ∷ false ∷ []
unfolding is_ip_addr parse_ip read_ipv4_addr read_ipv6_addr read_octets read_groups read_tail
    read_number read_separator read_digits to_digit as_bytes
test_ip = refl
