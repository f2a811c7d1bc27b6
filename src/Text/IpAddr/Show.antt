-- ===== src/Text/IpAddr/Show.antt =====
-- `Display for IpAddr`: decimal octets, or hexadecimal groups with the longest run of zeros left out.
use epay_sdk_rust.Common.{
  ℕ, zero, suc, ◌+◌, ◌/◌, ◌%◌, ◌≡◌, refl, Bool, false, ◌&&◌, List, [], ◌∷◌, ◌++◌, map, ltb, ◌==◌,
  if◌then◌else◌, take, drop,
}
use epay_sdk_rust.Text.{Text, codes, join}
use epay_sdk_rust.Text.Decimal.{to_string}
use epay_sdk_rust.Text.IpAddr.{IpAddr, v4, v6}

abbrev hex_of : ℕ → ℕ
hex_of n = if ltb n 10 then b'0' + n else 87 + n

-- `{:x}` of a 16-bit number
unfoldable pub show_hex : ℕ → Text
show_hex n =
    if ltb n 16
    then hex_of n ∷ []
    else if ltb n 256
    then hex_of (n / 16) ∷ hex_of (n % 16) ∷ []
    else if ltb n 4096
    then hex_of (n / 256) ∷ hex_of (n / 16 % 16) ∷ hex_of (n % 16) ∷ []
    else hex_of (n / 4096) ∷ hex_of (n / 256 % 16) ∷ hex_of (n / 16 % 16) ∷ hex_of (n % 16) ∷ []

unfoldable pub show_v4 : List ℕ → Text
show_v4 octets = join (map to_string octets) (codes ".")

-- a run of zeros: its start and its length
abbrev pub Span : Type 0
Span = ℕ × ℕ

abbrev extended : ℕ → Span → Span
extended i (start, zero) = (i, 1)
extended i (start, suc n) = (start, suc (suc n))

abbrev longer : Span → Span → Span
longer current longest = if ltb longest.1 current.1 then current else longest

-- the loop over the segments
unfoldable pub longest_zeros : ℕ → Span → Span → List ℕ → Span
longest_zeros i current longest [] = longest
longest_zeros i current longest (s ∷ segments) =
    let grown = extended i current in
    let in_run = longest_zeros (suc i) grown (longer grown longest) segments in
    let behind = longest_zeros (suc i) (0, 0) longest segments in if s == 0 then in_run else behind

unfoldable pub show_groups : List ℕ → Text
show_groups groups = join (map show_hex groups) (codes ":")

abbrev is_mapped : List ℕ → Bool
is_mapped (a ∷ b ∷ c ∷ d ∷ e ∷ f ∷ g ∷ h ∷ []) =
    a == 0 && b == 0 && c == 0 && d == 0 && e == 0 && f == 0xFFFF
is_mapped _ = false

abbrev octets_of : List ℕ → List ℕ
octets_of [] = []
octets_of (g ∷ groups) = (g / 256) ∷ (g % 256) ∷ octets_of groups

unfoldable pub show_v6 : List ℕ → Text
show_v6 segments =
    let (start, count) = longest_zeros 0 (0, 0) (0, 0) segments in
    if is_mapped segments
    then codes "::ffff:" ++ show_v4 (octets_of (drop 6 segments))
    else if ltb 1 count
    then show_groups (take start segments)
      ++ codes "::"
      ++ show_groups (drop (start + count) segments)
    else show_groups segments

-- `IpAddr::to_string`
unfoldable pub show_ip : IpAddr → Text
show_ip (v4 octets) = show_v4 octets
show_ip (v6 groups) = show_v6 groups

test_show :
    (map show_ip (
      v4 (203 ∷ 0 ∷ 113 ∷ 9 ∷ [])
      ∷ v6 (0 ∷ 0 ∷ 0 ∷ 0 ∷ 0 ∷ 0 ∷ 0 ∷ 1 ∷ [])
      ∷ v6 (0x2001 ∷ 0xdb8 ∷ 0 ∷ 1 ∷ 0 ∷ 0 ∷ 0 ∷ 0xab ∷ [])
      ∷ v6 (0 ∷ 0 ∷ 0 ∷ 0 ∷ 0 ∷ 0xFFFF ∷ 0x0102 ∷ 0x0304 ∷ [])
      ∷ []))
    ≡ codes "203.0.113.9" ∷ codes "::1" ∷ codes "2001:db8:0:1::ab" ∷ codes "::ffff:1.2.3.4" ∷ []
unfolding show_ip show_v4 show_v6 show_groups show_hex longest_zeros join to_string
test_show = refl
