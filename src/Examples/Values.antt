-- ===== src/Examples/Values.antt =====
-- Parameter maps, and the lenient integers of responses.
use epay_sdk_rust.Common.{◌-◌, ◌^◌, ◌<◌, ◌≡◌, refl, ◌↔◌, inl, false, some, List, [], ◌∷◌, arith}
use epay_sdk_rust.Text.{Text, codes, ends_with}
use epay_sdk_rust.Common.Int.{ℤ, pos}
use epay_sdk_rust.Crates.Form.{toy_form}
use epay_sdk_rust.Crates.UrlCrate.Toy.{toy_url}
use epay_sdk_rust.Params.{Params, from_iter, insert, get}
use epay_sdk_rust.Params.Valid.{IsValid, from_iter-IsValid}
use epay_sdk_rust.Params.Redacted.{redacted_encode}
use epay_sdk_rust.Params.Redacted.Hidden.{redacted_encode-insert}
use epay_sdk_rust.Params.Replay.{
  Op, put, put_opt, delete, join_with, put_all, run, replay, run-replay,
}
use epay_sdk_rust.Serde.{Input, int, uint, float, str, flex_i32, flex_u64, i32_half, u64_limit}
use epay_sdk_rust.Serde.Floats.{finite}
use epay_sdk_rust.Serde.Numerals.{InSigned}
use epay_sdk_rust.Serde.Ranges.{Denotes, DenotesUnsigned, flex_i32_iff, flex_u64_iff}

abbrev logged : Params
logged = from_iter ((codes "key", codes "secret") ∷ (codes "act", codes "order") ∷ [])

redacted_encode-insert_example :
    redacted_encode toy_url toy_form (insert (codes "key") (codes "other") logged)
    ≡ redacted_encode toy_url toy_form logged
unfolding from_iter get epay_sdk_rust.Params.is_secret
redacted_encode-insert_example =
    redacted_encode-insert toy_url toy_form logged (codes "key") (codes "secret") (codes "other")
      refl (inl refl)

masks_key : redacted_encode toy_url toy_form logged ≡ codes "act=order&key=***"
unfolding from_iter redacted_encode toy_form epay_sdk_rust.Params.Redacted.redacted_entries
    epay_sdk_rust.Params.Redacted.redacted_entry epay_sdk_rust.Params.is_secret
    epay_sdk_rust.Params.Redacted.redacted_value ends_with
masks_key = refl

masks_query :
    redacted_encode toy_url toy_form
      (from_iter ((codes "return_url", codes "https://a.b/c?token=1") ∷ []))
    ≡ codes "return_url=https://a.b/c?***"
unfolding from_iter redacted_encode toy_form epay_sdk_rust.Params.Redacted.redacted_entries
    epay_sdk_rust.Params.Redacted.redacted_entry epay_sdk_rust.Params.is_secret
    epay_sdk_rust.Params.Redacted.redacted_value ends_with
    epay_sdk_rust.Params.Redacted.redact_url_query epay_sdk_rust.Params.Redacted.show_parsed toy_url
    epay_sdk_rust.Params.Redacted.mask_query
masks_query = refl

abbrev changes : List Op
changes =
    put (codes "b") (codes "2")
    ∷ put_opt (codes "c") (some [])
    ∷ put_all ((codes "b", []) ∷ (codes "d", codes "4") ∷ [])
    ∷ delete (codes "a")
    ∷ join_with ((codes "d", codes "5") ∷ [])
    ∷ []

run-replay_example :
    IsValid (run changes logged)
    × ((j : Text) → get (run changes logged) j ≡ replay changes (get logged) j)
run-replay_example =
    run-replay changes logged
      (from_iter-IsValid ((codes "key", codes "secret") ∷ (codes "act", codes "order") ∷ []))

replays : get (run changes logged) (codes "d") ≡ some (codes "5")
unfolding from_iter get run epay_sdk_rust.Params.Replay.apply epay_sdk_rust.Params.merge
    epay_sdk_rust.Params.remove epay_sdk_rust.Params.insert_opt
replays = refl

flex_i32_iff_example :
    (flex_i32 (uint (2 ^ 64 - 1)) ≡ some (pos 7))
    ↔ (Denotes (uint (2 ^ 64 - 1)) (pos 7) × InSigned i32_half (pos 7))
flex_i32_iff_example = flex_i32_iff (uint (2 ^ 64 - 1)) (pos 7) (omega arith)

abbrev three : Input
three = float (finite false 6 (epay_sdk_rust.Common.Int.negsuc 0))

reads_float : flex_i32 three ≡ some (pos 3)
unfolding flex_i32 epay_sdk_rust.Serde.visit_int epay_sdk_rust.Serde.integral_f64
    epay_sdk_rust.Serde.Floats.is_integral epay_sdk_rust.Serde.try_signed
    epay_sdk_rust.Serde.Floats.as_i128 epay_sdk_rust.Serde.Floats.signed
    epay_sdk_rust.Serde.Floats.whole_part
reads_float = refl

flex_u64_iff_example :
    (flex_u64 (str (codes "+1001")) ≡ some 1001)
    ↔ (DenotesUnsigned (str (codes "+1001")) 1001 × (1001 < u64_limit))
flex_u64_iff_example = flex_u64_iff (str (codes "+1001")) 1001 tt
