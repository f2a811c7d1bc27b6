-- ===== src/Examples/Served.antt =====
-- A notification on its way: made, encoded, parsed, verified, and settled by the shop.
use epay_sdk_rust.Common.{
  ◌*◌, ◌≡◌, refl, ◌↔◌, true, false, none, some, List, [], ◌∷◌, arith, leb, leb→le, All,
}
use epay_sdk_rust.Text.{Text, codes, len, trim, eq_ignore_ascii_case, split, split_once}
use epay_sdk_rust.Common.Int.{pos}
use epay_sdk_rust.Types.{PayType}
use epay_sdk_rust.Crates.Decimals.{cent}
use epay_sdk_rust.Crates.Decimals.Toy.{toy_decimals}
use epay_sdk_rust.Crates.Digest.{toy_digest}
use epay_sdk_rust.Crates.Http.{toy_http}
use epay_sdk_rust.Crates.UrlCrate.Toy.{toy_url}
use epay_sdk_rust.Error.{ok, ◌>>=◌}
use epay_sdk_rust.Params.{Params, from_iter}
use epay_sdk_rust.Params.Valid.{from_iter-IsValid}
use epay_sdk_rust.Params.Redacted.{encode}
use epay_sdk_rust.Money.{Money, money_eq}
use epay_sdk_rust.Notify.Canonical.{parse_notify_params}
use epay_sdk_rust.Notify.Encoded.{IsSendablePair, parse_notify_params-encode}
use epay_sdk_rust.Notify.Encoded.Escaping.{sign_form, sign_percent, sign_codec}
use epay_sdk_rust.Notify.Verify.{NotifyData, verify_notify}
use epay_sdk_rust.Notify.Verify.Authentic.{IsAuthentic}
use epay_sdk_rust.Notify.Fixture.{NotifyFixture, new_fixture, fixture_query, fixture_params}
use epay_sdk_rust.Notify.Fixture.Accepted.{received, signer}
use epay_sdk_rust.Protocol.{ProtocolContext}
use epay_sdk_rust.Axum.{Request, extracted, verified_notify}
use epay_sdk_rust.Axum.Accepted.{IsReadable, verified_notify_iff}
use epay_sdk_rust.Server.{Order, notify, remember}
use epay_sdk_rust.Server.History.{placed, notified, History, place, settle, Reachable, start, next}
use epay_sdk_rust.Server.Settled.{AllSound, reachable-AllSound}
use epay_sdk_rust.Server.Repeated.{IsPayable, notify-notify}
use epay_sdk_rust.Examples.{toy_packages, merchant}
use epay_sdk_rust.Config.{Config}

abbrev ten : Money toy_decimals
unfolding toy_decimals
ten = record { value = pos (1000 * cent) }

abbrev fixture : NotifyFixture toy_decimals
fixture = new_fixture toy_decimals 1001 (codes "secret") (codes "A-1") ten

abbrev pairs : List (Text × Text)
pairs = (codes "a", codes "x&y=z%") ∷ (codes "b", codes "商") ∷ []

pair_texts : All IsSendablePair (from_iter pairs).inner
unfolding epay_sdk_rust.Text.Utf8.from_utf8 epay_sdk_rust.Params.from_iter
    epay_sdk_rust.Signer.verify
pair_texts = ((refl, refl, refl), ((refl, refl, refl), tt))

pairs_small : leb (len (encode sign_form (from_iter pairs))) (16 * 1024) ≡ true
unfolding epay_sdk_rust.Params.from_iter epay_sdk_rust.Params.sign_payload
    epay_sdk_rust.Params.Redacted.encode epay_sdk_rust.Signer.verify
    epay_sdk_rust.Notify.Encoded.Escaping.escape_sign
    epay_sdk_rust.Notify.Encoded.Escaping.escape_text
    epay_sdk_rust.Notify.Encoded.Escaping.sign_form
pairs_small = refl

parse_notify_params-encode_example :
    parse_notify_params sign_percent (some (encode sign_form (from_iter pairs))) none
    ≡ ok (from_iter pairs)
unfolding from_iter
parse_notify_params-encode_example =
    parse_notify_params-encode sign_codec (from_iter pairs) (from_iter-IsValid pairs) pair_texts
      (omega arith) (leb→le _ _ pairs_small)

abbrev shop_config : Config toy_url
unfolding toy_url
shop_config = record {
  pid = 1001;
  key = codes "secret";
  api_base_url = record {
    scheme_part = codes "https";
    host_part = codes "pay.example.com";
    path_part = codes "/";
    query_part = none;
  };
  debug = false;
  notify_url = none;
  return_url = none;
  allow_insecure_http = false;
  allow_insecure_callback_http = false;
}

abbrev ctx : ProtocolContext toy_packages.urls
ctx = record { config = shop_config; signer = merchant }

abbrev sent : NotifyData toy_decimals
sent = received toy_decimals fixture toy_digest ten

abbrev request : Request toy_http
unfolding toy_http
request = record {
  query = some (fixture_query toy_decimals toy_digest sign_form fixture);
  headers = [];
  body = [];
}

verified_notify_iff_example :
    (verified_notify toy_http sign_percent toy_packages (λ c. c) request ctx ≡ extracted sent) ↔ (
      (params : Params) × IsReadable toy_http sign_percent request params
      × IsAuthentic toy_decimals toy_digest ctx.signer ctx.config.pid params sent)
verified_notify_iff_example =
    verified_notify_iff toy_http sign_percent toy_packages (λ c. c) request ctx sent

extracts : verified_notify toy_http sign_percent toy_packages (λ c. c) request ctx ≡ extracted sent
unfolding epay_sdk_rust.Text.trim epay_sdk_rust.Text.eq_ignore_ascii_case epay_sdk_rust.Text.split
    epay_sdk_rust.Text.split_once epay_sdk_rust.Text.Decimal.to_string
    epay_sdk_rust.Text.Decimal.parse_unsigned epay_sdk_rust.Params.insert_opt
    epay_sdk_rust.Params.contains epay_sdk_rust.Params.sign_payload
    epay_sdk_rust.Params.Redacted.encode epay_sdk_rust.Signer.hex_lower epay_sdk_rust.Signer.sign
    epay_sdk_rust.Signer.verify epay_sdk_rust.Signer.sign_with_params
    epay_sdk_rust.Crates.Digest.toy_digest epay_sdk_rust.Crates.Decimals.cents_text
    epay_sdk_rust.Crates.Decimals.Toy.toy_parts epay_sdk_rust.Crates.Decimals.Toy.toy_decimals
    epay_sdk_rust.Types.pay_type_as_str epay_sdk_rust.Types.pay_type_from epay_sdk_rust.Money.new
    epay_sdk_rust.Money.from_yuan_str epay_sdk_rust.Money.to_epay_string
    epay_sdk_rust.Notify.is_escaped epay_sdk_rust.Notify.validate_percent_encoding
    epay_sdk_rust.Notify.plus_to_space epay_sdk_rust.Notify.split_pair
    epay_sdk_rust.Notify.decode_component epay_sdk_rust.Notify.parse_pair
    epay_sdk_rust.Notify.parse_pairs epay_sdk_rust.Notify.parse_source
    epay_sdk_rust.Notify.parse_raw_with_limits epay_sdk_rust.Notify.Canonical.collect
    epay_sdk_rust.Notify.Canonical.check_conflicts epay_sdk_rust.Notify.Canonical.add_missing
    epay_sdk_rust.Notify.Canonical.canonicalize epay_sdk_rust.Notify.Fixture.new_fixture
    epay_sdk_rust.Notify.Fixture.unsigned_params epay_sdk_rust.Notify.Fixture.fixture_params
    epay_sdk_rust.Notify.Fixture.fixture_query epay_sdk_rust.Validation.is_out_trade_no_byte
    epay_sdk_rust.Validation.validate_out_trade_no epay_sdk_rust.Validation.validate_trade_no
    epay_sdk_rust.Validation.has_control_chars epay_sdk_rust.Validation.validate_name
    epay_sdk_rust.Validation.is_identifier_byte epay_sdk_rust.Validation.is_identifier
    epay_sdk_rust.Validation.validate_pay_type epay_sdk_rust.Validation.exactly_one_identifier
    epay_sdk_rust.Notify.Verify.required epay_sdk_rust.Notify.Verify.verify_sign
    epay_sdk_rust.Notify.Verify.verify_signature epay_sdk_rust.Notify.Verify.verify_pid
    epay_sdk_rust.Notify.Verify.checked epay_sdk_rust.Notify.Verify.check_status
    epay_sdk_rust.Notify.Verify.verify_notify epay_sdk_rust.Notify.Encoded.Escaping.escape_sign
    epay_sdk_rust.Notify.Encoded.Escaping.escape_text
    epay_sdk_rust.Notify.Encoded.Escaping.sign_form
    epay_sdk_rust.Notify.Encoded.Escaping.sign_percent epay_sdk_rust.Crates.Http.toy_http
    epay_sdk_rust.Crates.Percent.toy_percent epay_sdk_rust.Axum.or_rejected
    epay_sdk_rust.Axum.body_text epay_sdk_rust.Axum.check_content_type
    epay_sdk_rust.Axum.read_notify_params epay_sdk_rust.Axum.verified_notify
    epay_sdk_rust.Protocol.verify_context shop_config
extracts = refl

abbrev placed_order : List (Text × Order toy_packages)
placed_order = remember toy_packages (codes "A-1") (codes "tea") ten (codes "alipay") []

abbrev shop_orders : List (Text × Order toy_packages)
shop_orders = (notify toy_packages sent placed_order).1

abbrev shop_history : History toy_packages toy_http sign_percent ctx
shop_history =
    notified request sent extracts ∷ placed (codes "A-1") (codes "tea") ten (codes "alipay") ∷ []

reached : Reachable toy_packages toy_http sign_percent ctx shop_history shop_orders
reached =
    next (next start (place (codes "A-1") (codes "tea") ten (codes "alipay")))
      (settle request sent extracts)

reachable-AllSound_example :
    AllSound toy_packages toy_http sign_percent ctx shop_history shop_orders
reachable-AllSound_example = reachable-AllSound toy_packages toy_http sign_percent ctx reached

abbrev settled_order : Order toy_packages
settled_order = record {
  out_trade_no = codes "A-1";
  trade_no = codes "20260828000000000001";
  name = codes "tea";
  money = ten;
  pay_type = codes "alipay";
  paid = true;
}

settles : shop_orders ≡ (codes "A-1", settled_order) ∷ []
unfolding epay_sdk_rust.Params.remove epay_sdk_rust.Params.merge
    epay_sdk_rust.Crates.Digest.toy_digest epay_sdk_rust.Crates.Decimals.Toy.toy_decimals
    epay_sdk_rust.Types.is_success epay_sdk_rust.Money.money_eq
    epay_sdk_rust.Notify.Fixture.new_fixture epay_sdk_rust.Notify.Verify.money_matches
    epay_sdk_rust.Notify.Verify.try_into_success epay_sdk_rust.Server.remember
    epay_sdk_rust.Server.settle_amount epay_sdk_rust.Server.settle_order
    epay_sdk_rust.Server.settle_success epay_sdk_rust.Server.notify
settles = refl

notify-notify_example :
    (((notify toy_packages sent placed_order).0.reply ≡ codes "success")
      ↔ IsPayable toy_packages sent placed_order)
    × (notify toy_packages sent (notify toy_packages sent placed_order).1
        ≡ notify toy_packages sent placed_order)
notify-notify_example = notify-notify toy_packages sent placed_order
