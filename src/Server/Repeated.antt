-- ===== src/Server/Repeated.antt =====
-- The gateway repeats a notification until it is acknowledged: what a repetition does to the orders.
use epay_sdk_rust.Common.{
  ◌≡◌, ◌↔◌, refl, ap, ◌∙◌, inl, inr, Bool, true, false, Option, none, some, List, [], ◌∷◌, arith,
  Bool-cases,
}
use epay_sdk_rust.Text.{Text, codes}
use epay_sdk_rust.Text.Laws.{text_eq_refl, text_compare_eq}
use epay_sdk_rust.Types.{is_success}
use epay_sdk_rust.BTreeMap
use epay_sdk_rust.BTreeMap.Laws.{lookup-insert}
use epay_sdk_rust.Notify.Verify.{NotifyData, money_matches}
use epay_sdk_rust.Notify.Success.{
  is_success_iff, money_matches_iff, try_into_success-eq-ok, try_into_success-eq-err,
}
use epay_sdk_rust.Protocol.{Packages}
use epay_sdk_rust.Axum.{ack_ok}
use epay_sdk_rust.Server.{Order, settle_amount, settle_order, settle_success, notify}

-- inserting what is there changes nothing
insert-lookup {ℓ} :
    {V : Type ℓ} (k : Text) (v : V) (m : List (Text × V))
    → BTreeMap.lookup k m ≡ some v
    → BTreeMap.insert k v m ≡ m
unfolding BTreeMap.insert BTreeMap.lookup
insert-lookup k v [] h = cc (h)
insert-lookup k v ((j, w) ∷ m) h = ground (arith, h, text_compare_eq k j, insert-lookup k v m)

module _ (pkg : Packages) (n : NotifyData pkg.dec) where
  settle_amount-again :
      (orders : List (Text × Order pkg)) (order : Order pkg) (matches : Bool)
      → BTreeMap.lookup n.out_trade_no orders ≡ some order
      → money_matches pkg.dec n order.money ≡ matches
      → settle_order pkg n
          (BTreeMap.lookup n.out_trade_no (settle_amount pkg matches n order orders).1)
          (settle_amount pkg matches n order orders).1
        ≡ settle_amount pkg matches n order orders
  unfolding settle_amount settle_order
  settle_amount-again orders order false found e = rw (found, e)
  settle_amount-again orders order true found e =
      let settled : Order pkg = record order { paid = true; trade_no = n.trade_no } in
      let there : BTreeMap.lookup n.out_trade_no (BTreeMap.insert n.out_trade_no settled orders)
          ≡ some settled =
        lookup-insert n.out_trade_no n.out_trade_no settled orders
        ∙ rw (text_eq_refl n.out_trade_no) in
      rw (there, e) (ap (λ m. (ack_ok, m)) (insert-lookup n.out_trade_no settled _ there))

  settle_order-again :
      (orders : List (Text × Order pkg)) (found : Option (Order pkg))
      → BTreeMap.lookup n.out_trade_no orders ≡ found
      → settle_order pkg n
          (BTreeMap.lookup n.out_trade_no (settle_order pkg n found orders).1)
          (settle_order pkg n found orders).1
        ≡ settle_order pkg n found orders
  unfolding settle_order
  settle_order-again orders none e = rw (e)
  settle_order-again orders (some order) e =
      settle_amount-again orders order (money_matches pkg.dec n order.money) e refl

  abbrev Passes : List (Text × Order pkg) → Type 0
  Passes orders =
      (order : Order pkg) × (BTreeMap.lookup n.out_trade_no orders ≡ some order)
      × (is_success n.trade_status ≡ true)
      × (money_matches pkg.dec n order.money ≡ true)

  settle_order_iff :
      (orders : List (Text × Order pkg)) (found : Option (Order pkg))
      → BTreeMap.lookup n.out_trade_no orders ≡ found
      → is_success n.trade_status ≡ true
      → ((settle_order pkg n found orders).0.reply ≡ codes "success") ↔ Passes orders
  unfolding settle_order settle_amount
  settle_order_iff orders none e success = (λ h. ground (arith, h), λ a. cc (e, a.1))
  settle_order_iff orders (some order) e success =
      elim (Bool-cases (money_matches pkg.dec n order.money)) [
        | inl same ↦ (λ h. (order, e, success, same), λ a. rw (same) refl)
        | inr other ↦ rw (other) (
          λ h. ground (arith, h),
          λ a.
              (let alike : a.0 ≡ order = cc (e, a.1) in
                cc (other, a.3, ap (λ o. money_matches pkg.dec n o.money) alike)),
        )
      ]

  notify_iff :
      (orders : List (Text × Order pkg))
      → ((notify pkg n orders).0.reply ≡ codes "success") ↔ Passes orders
  unfolding notify settle_success
  notify_iff orders = elim (Bool-cases (is_success n.trade_status)) [
    | inl success ↦
        rw (try_into_success-eq-ok pkg.dec n success)
          (settle_order_iff orders (BTreeMap.lookup n.out_trade_no orders) refl success)
    | inr failed ↦
        rw (try_into_success-eq-err pkg.dec n failed)
          (λ h. ground (arith, h), λ a. cc (failed, a.2))
  ]

  again :
      (orders : List (Text × Order pkg))
      → notify pkg n (notify pkg n orders).1 ≡ notify pkg n orders
  unfolding notify settle_success
  again orders = elim (Bool-cases (is_success n.trade_status)) [
    | inl success ↦
        rw (try_into_success-eq-ok pkg.dec n success)
          (settle_order-again orders (BTreeMap.lookup n.out_trade_no orders) refl)
    | inr failed ↦ rw (try_into_success-eq-err pkg.dec n failed)
  ]

  -- What a notification must report to be settled: the payment of an order of the shop, by its
  -- amount.
  abbrev pub IsPayable : List (Text × Order pkg) → Type 0
  IsPayable orders =
      (order : Order pkg) × (BTreeMap.lookup n.out_trade_no orders ≡ some order)
      × (n.trade_status.value ≡ codes "TRADE_SUCCESS")
      × (pkg.dec.scaled n.money.value ≡ pkg.dec.scaled order.money.value)

  -- A notification is acknowledged with `success` exactly when it reports success for an order of
  -- the shop, with its number and its amount. One that arrives again is answered as it was before
  -- and changes no order: it is acknowledged again, or refused again.
  pub notify-notify :
      (orders : List (Text × Order pkg))
      → (((notify pkg n orders).0.reply ≡ codes "success") ↔ IsPayable orders)
        × (notify pkg n (notify pkg n orders).1 ≡ notify pkg n orders)
  notify-notify orders =
      let (sound, complete) = notify_iff orders in
      let paid = is_success_iff pkg.dec n in
      let same = money_matches_iff pkg.dec n in
      (
        (
          λ h.
              (let (order, found, success, matches) = sound h in
                (order, found, paid.0 success, (same order.money).0 matches)),
          λ (order, found, success, amount).
              complete (order, found, paid.1 success, (same order.money).1 amount),
        ),
        again orders,
      )
