-- ===== src/Merchant/Checked.antt =====
-- What the client checks of the profile and the settlements that the gateway returns.
use epay_sdk_rust.Common.{
  ℕ, ◌≡◌, refl, ◌↔◌, ◌⊎◌, false, not, ◌&&◌, some, List, [], ◌∷◌, arith, ◌==◌, ==_iff, All,
}
use epay_sdk_rust.Text.{Text, trim}
use epay_sdk_rust.Common.Int.{is_negative}
use epay_sdk_rust.Crates.Decimals.{Decimals}
use epay_sdk_rust.Error.{ok, ok_or, >>=-eq-ok, guard-eq-ok, ok_or-eq-ok}
use epay_sdk_rust.Merchant.{
  MerchantInfo, Settlement, SettlementListResponse, balance, validate_merchant, validate_settlement,
  validate_each, validate_settlements,
}

module _ (dec : Decimals) where
  -- the text is a decimal number that is not below 0
  abbrev pub IsAmount : Text → Type 0
  IsAmount s =
      (d : dec.Decimal) × (dec.from_str (trim s) ≡ some d) × (is_negative (dec.scaled d) ≡ false)

  validate_merchant_sound :
      (pid : ℕ) (info : MerchantInfo)
      → validate_merchant dec pid info ≡ ok tt
      → (info.pid ≡ pid) × IsAmount info.money
  unfolding validate_merchant balance
  validate_merchant_sound pid info h =
      let (same, h₁) = guard-eq-ok (not (info.pid == pid)) _ _ h in
      let (d, found, h₂) = >>=-eq-ok (ok_or (dec.from_str (trim info.money)) _) _ h₁ in
      let (positive, _) = guard-eq-ok (dec.lt_zero d) _ (ok tt) h₂ in
      (
        ground (arith, same),
        (d, ok_or-eq-ok (dec.from_str (trim info.money)) _ found, cc (dec.lt_zero_lem d, positive)),
      )

  -- The merchant's profile is accepted exactly when it is the configured merchant's and its balance
  -- is a decimal number that is not negative.
  validate_merchant_iff :
      (pid : ℕ) (info : MerchantInfo)
      → (validate_merchant dec pid info ≡ ok tt) ↔ ((info.pid ≡ pid) × IsAmount info.money)
  validate_merchant_iff pid info = (
    validate_merchant_sound pid info,
    λ (same, (d, found, positive)).
        unfold validate_merchant balance in
        rw ((==_iff info.pid pid).1 same, found, dec.lt_zero_lem d, positive),
  )

  -- a record of the configured merchant, or one without a merchant, with an amount
  abbrev pub IsSettled : ℕ → Settlement → Type 0
  IsSettled pid s = ((s.uid ≡ 0) ⊎ (s.uid ≡ pid)) × IsAmount s.money

  validate_settlement_sound :
      (pid : ℕ) (s : Settlement) → validate_settlement dec pid s ≡ ok tt → IsSettled pid s
  unfolding validate_settlement
  validate_settlement_sound pid s h =
      let (same, h₁) = guard-eq-ok (not (s.uid == 0) && not (s.uid == pid)) _ _ h in
      let (d, found, h₂) = >>=-eq-ok (ok_or (dec.from_str (trim s.money)) _) _ h₁ in
      let (positive, _) = guard-eq-ok (dec.lt_zero d) _ (ok tt) h₂ in
      (
        ground (arith, same),
        (d, ok_or-eq-ok (dec.from_str (trim s.money)) _ found, cc (dec.lt_zero_lem d, positive)),
      )

  validate_settlement_complete :
      (pid : ℕ) (s : Settlement) → IsSettled pid s → validate_settlement dec pid s ≡ ok tt
  validate_settlement_complete pid s (whose, (d, found, positive)) =
      let fits : (not (s.uid == 0) && not (s.uid == pid)) ≡ false = ground (arith, whose) in
      unfold validate_settlement in rw (fits, found, dec.lt_zero_lem d, positive)

  validate_each_iff :
      (pid : ℕ) (xs : List Settlement) → (validate_each dec pid xs ≡ ok tt) ↔ All (IsSettled pid) xs
  unfolding validate_each
  validate_each_iff pid [] = (λ h. tt, λ h. refl)
  validate_each_iff pid (s ∷ xs) = (
    (λ h.
        let (_, first, rest) = >>=-eq-ok (validate_settlement dec pid s) _ h in
        (validate_settlement_sound pid s first, (validate_each_iff pid xs).0 rest)),
    λ (first, rest).
        rw (validate_settlement_complete pid s first, (validate_each_iff pid xs).1 rest),
  )

  -- A list of settlements is accepted exactly when its count is not negative and each record names
  -- the configured merchant or none, and has an amount that is a decimal number not below 0.
  pub validate_settlements_iff :
      (pid : ℕ) (list : SettlementListResponse)
      → (validate_settlements dec pid list ≡ ok tt)
        ↔ ((is_negative list.count ≡ false) × All (IsSettled pid) list.settlements)
  unfolding validate_settlements
  validate_settlements_iff pid list = (
    (λ h.
        let (count, each) = guard-eq-ok (is_negative list.count) _ _ h in
        (count, (validate_each_iff pid list.settlements).0 each)),
    λ (count, each). rw (count, (validate_each_iff pid list.settlements).1 each),
  )
