-- ===== src/Text/Utf8.antt =====
-- `String::from_utf8`, `str::from_utf8` and `String::from_utf8_lossy`: decoding bytes as UTF-8.
use epay_sdk_rust.Common.{
  ℕ, zero, suc, ◌+◌, ◌*◌, ◌%◌, Bool, ◌&&◌, Option, none, some, List, [], ◌∷◌, ltb, leb, ◌==◌,
  if◌then◌else◌, length, ◌≡◌, refl,
}

-- How many bytes the sequence that `b` begins has; 0 for a byte that begins none.
unfoldable pub width : ℕ → ℕ
width b =
    if ltb b 0x80
    then 1
    else if leb 0xC2 b && leb b 0xDF
    then 2
    else if leb 0xE0 b && leb b 0xEF
    then 3
    else if leb 0xF0 b && leb b 0xF4
    then 4
    else 0

-- Overlong forms, surrogates and values past U+10FFFF are refused by the second byte.
unfoldable pub is_second : ℕ → ℕ → Bool
is_second b c =
    leb (if b == 0xE0 then 0xA0 else if b == 0xF0 then 0x90 else 0x80) c
    && leb c (if b == 0xED then 0x9F else if b == 0xF4 then 0x8F else 0xBF)

unfoldable pub is_continuation : ℕ → Bool
is_continuation c = leb 0x80 c && leb c 0xBF

-- One step: the scalar value, or `none` for an invalid sequence, and the bytes behind it.
unfoldable pub decode_2 : ℕ → List ℕ → Option ℕ × List ℕ
unfolding is_continuation
decode_2 b [] = (none, [])
decode_2 b (c ∷ r) = if is_continuation c then (some (b % 32 * 64 + c % 64), r) else (none, c ∷ r)

unfoldable pub decode_3 : ℕ → List ℕ → Option ℕ × List ℕ
unfolding is_continuation is_second
decode_3 b [] = (none, [])
decode_3 b (c ∷ []) = if is_second b c then (none, []) else (none, c ∷ [])
decode_3 b (c ∷ d ∷ r) =
    if is_second b c
    then if is_continuation d
      then (some (b % 16 * 4096 + c % 64 * 64 + d % 64), r)
      else (none, d ∷ r)
    else (none, c ∷ d ∷ r)

unfoldable pub decode_4 : ℕ → List ℕ → Option ℕ × List ℕ
unfolding is_continuation is_second
decode_4 b [] = (none, [])
decode_4 b (c ∷ []) = if is_second b c then (none, []) else (none, c ∷ [])
decode_4 b (c ∷ d ∷ []) =
    if is_second b c
    then if is_continuation d then (none, []) else (none, d ∷ [])
    else (none, c ∷ d ∷ [])
decode_4 b (c ∷ d ∷ e ∷ r) =
    if is_second b c
    then if is_continuation d
      then if is_continuation e
        then (some (b % 8 * 262144 + c % 64 * 4096 + d % 64 * 64 + e % 64), r)
        else (none, e ∷ r)
      else (none, d ∷ e ∷ r)
    else (none, c ∷ d ∷ e ∷ r)

unfoldable pub decode_one : ℕ → List ℕ → Option ℕ × List ℕ
unfolding width decode_2 decode_3 decode_4
decode_one b r =
    if width b == 1
    then (some b, r)
    else if width b == 2
    then decode_2 b r
    else if width b == 3
    then decode_3 b r
    else if width b == 4
    then decode_4 b r
    else (none, r)

-- Each round reads a byte at least, so the length is enough fuel.
unfoldable pub decode_strict : ℕ → List ℕ → Option (List ℕ)
unfolding decode_one
decode_strict zero bytes = some []
decode_strict (suc f) [] = some []
decode_strict (suc f) (b ∷ r) =
    let (read, rest) = decode_one b r in
    elim read [
      | none ↦ none
      | some c ↦ elim (decode_strict f rest) [ none ↦ none | some s ↦ some (c ∷ s) ]
    ]

unfoldable pub from_utf8 : List ℕ → Option (List ℕ)
unfolding decode_strict
from_utf8 bytes = decode_strict (length bytes) bytes

unfoldable pub decode_lossy : ℕ → List ℕ → List ℕ
unfolding decode_one
decode_lossy zero bytes = []
decode_lossy (suc f) [] = []
decode_lossy (suc f) (b ∷ r) =
    let (read, rest) = decode_one b r in
    elim read [ none ↦ 0xFFFD ∷ decode_lossy f rest | some c ↦ c ∷ decode_lossy f rest ]

unfoldable pub from_utf8_lossy : List ℕ → List ℕ
unfolding decode_lossy
from_utf8_lossy bytes = decode_lossy (length bytes) bytes

decodes_han : from_utf8 (0xE5 ∷ 0x95 ∷ 0x86 ∷ 0x41 ∷ []) ≡ some (0x5546 ∷ 0x41 ∷ [])
unfolding from_utf8
decodes_han = refl

replaces_invalid : from_utf8_lossy (0x41 ∷ 0xE5 ∷ 0x95 ∷ 0x41 ∷ []) ≡ 0x41 ∷ 0xFFFD ∷ 0x41 ∷ []
unfolding from_utf8_lossy
replaces_invalid = refl
