-- ===== src/Money.antt =====
-- money.rs: exact positive amounts. The conversions from `f64` are not modelled.
pub mod Exact
pub mod RoundTrip
use epay_sdk_rust.Common.{Bool, not, Option, none, some, if◌then◌else◌}
use epay_sdk_rust.Common.Int.{ℤ, pos, negsuc}
use epay_sdk_rust.Text.{Text, trim}
use epay_sdk_rust.Crates.Decimals.{Decimals, is_le_zero}
use epay_sdk_rust.Error.{Error, Result, ok, err, ◌>>=◌, ok_or}
use epay_sdk_rust.Error.Codes.{invalid_money, invalid_money_precision, money_out_of_range}

module _ (dec : Decimals) where
  open dec use {Decimal}

  pub record Money : Type 0 where
    pub value : Decimal

  -- `Money::new`
  unfoldable pub new : Decimal → Result Money
  new amount =
      if dec.le_zero amount
      then err invalid_money
      else if not (dec.equal (dec.round_cents amount) amount)
      then err invalid_money_precision
      else ok (record { value = dec.round_cents amount })

  -- `Money::new_rounded`
  unfoldable pub new_rounded : Decimal → Result Money
  new_rounded amount =
      if dec.le_zero (dec.round_cents amount)
      then err invalid_money
      else ok (record { value = dec.round_cents amount })

  -- `Money::from_yuan_str`
  unfoldable pub from_yuan_str : Text → Result Money
  from_yuan_str s = do amount ← ok_or (dec.from_str (trim s)) invalid_money; new amount

  -- `Money::from_yuan_str_rounded`
  unfoldable pub from_yuan_str_rounded : Text → Result Money
  from_yuan_str_rounded s = do
    amount ← ok_or (dec.from_str (trim s)) invalid_money
    new_rounded amount

  -- `Money::from_fen`
  unfoldable pub from_fen : ℤ → Result Money
  from_fen fen =
      if is_le_zero fen
      then err invalid_money
      else new (dec.div (dec.from_int fen) (dec.from_int (pos 100)))

  -- `Money::try_to_fen`
  unfoldable pub try_to_fen : Money → Result ℤ
  try_to_fen money = elim (dec.checked_mul money.value (dec.from_int (pos 100))) [
    | none ↦ err money_out_of_range
    | some fen ↦ ok_or (dec.to_i64 fen) money_out_of_range
  ]

  -- `Money::to_epay_string`
  unfoldable pub to_epay_string : Money → Text
  to_epay_string money = dec.format_cents money.value

  -- `PartialEq for Money`
  unfoldable pub money_eq : Money → Money → Bool
  money_eq a b = dec.equal a.value b.value

  -- what serde hands to `MoneyVisitor`
  pub data Input : Type 0 where
    str : Text → Input
    int : ℤ → Input
    float : Input

  -- `Deserialize for Money`; `none` is serde's error
  unfoldable pub visit : Input → Option Money
  visit (str v) = elim (from_yuan_str v) [ ok m ↦ some m | err e ↦ none ]
  visit (int v) = elim (new (dec.from_int v)) [ ok m ↦ some m | err e ↦ none ]
  visit float = none
