-- ===== src/Server/Settled.antt =====
-- The orders of the shop follow its history: each is as it was placed, and paid if that was notified.
use epay_sdk_rust.Common.{
  ◌≡◌, refl, sym, ap, ◌∙◌, subst, inl, inr, Bool, true, false, Option, none, some, ◌∷◌, Bool-cases,
}
use epay_sdk_rust.Text.{Text, text_eq}
use epay_sdk_rust.Text.Laws.{text_eq_iff, text_eq_refl}
use epay_sdk_rust.Types.{is_success}
use epay_sdk_rust.BTreeMap
use epay_sdk_rust.BTreeMap.Laws.{lookup-insert, lookup-nil}
use epay_sdk_rust.Crates.Http.{HttpCrate}
use epay_sdk_rust.Crates.Percent.{PercentDecode}
use epay_sdk_rust.Money.{Money}
use epay_sdk_rust.Notify.Verify.{NotifyData, money_matches}
use epay_sdk_rust.Notify.Success.{
  is_success_iff, money_matches_iff, try_into_success-eq-ok, try_into_success-eq-err,
}
use epay_sdk_rust.Protocol.{Packages, ProtocolContext}
use epay_sdk_rust.Axum.{extracted, Request, verified_notify}
use epay_sdk_rust.Axum.Accepted.{verified_notify_iff}
use epay_sdk_rust.Server.{
  Order, remember, settle_amount, settle_order, settle_success, notify, number_found, set_trade_no,
}
use epay_sdk_rust.Server.History.{
  Orders, Event, placed, numbered, notified, History, Step, place, number, settle, Reachable, start,
  next, IsPayment, IsSound, IsRecorded,
}

module _ (pkg : Packages) (http : HttpCrate) (p : PercentDecode)
    (ctx : ProtocolContext pkg.urls) where
  abbrev Past : Type 0
  Past = History pkg http p ctx

  abbrev Recorded : Text → Option (Order pkg) → Past → Type 0
  Recorded = IsRecorded pkg http p ctx

  -- what the shop finds under each number is what the history says of it
  abbrev pub AllSound : Past → Orders pkg http p ctx → Type 0
  AllSound history orders =
      (no' : Text) → IsRecorded pkg http p ctx no' (BTreeMap.lookup no' orders) history

  -- an order put in its place, where the other numbers are not concerned
  insert-AllSound :
      (before after : Past) (orders : Orders pkg http p ctx) (k : Text) (o : Order pkg)
      → AllSound before orders
      → IsSound pkg http p ctx k o after
      → ((no' : Text) (found : Option (Order pkg))
          → text_eq k no' ≡ false
          → Recorded no' found before
          → Recorded no' found after)
      → AllSound after (BTreeMap.insert k o orders)
  insert-AllSound before after orders k o sound fits keep no' =
      rw (lookup-insert k no' o orders) (elim (Bool-cases (text_eq k no')) [
        | inl same ↦
            rw (same)
              (subst (λ j. IsSound pkg http p ctx j o after) ((text_eq_iff k no').0 same) fits)
        | inr other ↦ rw (other) (keep no' (BTreeMap.lookup no' orders) other (sound no'))
      ])

  place-keeps :
      (history : Past) (k name : Text) (money : Money pkg.dec) (channel no' : Text)
      (found : Option (Order pkg))
      → text_eq k no' ≡ false
      → Recorded no' found history
      → Recorded no' found (placed k name money channel ∷ history)
  place-keeps history k name money channel no' none other h = (other, h)
  place-keeps history k name money channel no' (some order) other (named, created, paid) =
      (named, inr (other, created), (λ h. (other, paid.0 h), λ h. paid.1 h.1))

  place-AllSound :
      (history : Past) (orders : Orders pkg http p ctx) (k name : Text) (money : Money pkg.dec)
      (channel : Text)
      → AllSound history orders
      → AllSound (placed k name money channel ∷ history) (remember pkg k name money channel orders)
  unfolding remember
  place-AllSound history orders k name money channel sound =
      insert-AllSound history (placed k name money channel ∷ history) orders k _ sound
        (refl, inl (text_eq_refl k, refl, refl, refl), (λ h. cc (h), λ h. cc (h.0, text_eq_refl k)))
        (place-keeps history k name money channel)

  number-keeps :
      (history : Past) (k trade_no no' : Text) (found : Option (Order pkg))
      → Recorded no' found history
      → Recorded no' found (numbered k trade_no ∷ history)
  number-keeps history k trade_no no' none h = h
  number-keeps history k trade_no no' (some order) h = h

  number-AllSound :
      (history : Past) (orders : Orders pkg http p ctx) (k trade_no : Text)
      → AllSound history orders
      → AllSound (numbered k trade_no ∷ history) (set_trade_no pkg k trade_no orders)
  unfolding set_trade_no number_found
  number-AllSound history orders k trade_no sound = go (BTreeMap.lookup k orders) (sound k)
    where
      go :
          (found : Option (Order pkg))
          → Recorded k found history
          → AllSound (numbered k trade_no ∷ history) (number_found pkg k trade_no found orders)
      go none h = λ no'. number-keeps history k trade_no no' _ (sound no')
      go (some order) h =
          insert-AllSound history (numbered k trade_no ∷ history) orders k
            (record order { trade_no = trade_no }) sound h
            (λ no' found _. number-keeps history k trade_no no' found)

  module _ (history : Past) (request : Request http) (n : NotifyData pkg.dec)
      (accepted : verified_notify http p pkg (λ c. c) request ctx ≡ extracted n) where
    abbrev Later : Past
    Later = notified request n accepted ∷ history

    -- a notification that is not the payment of an order changes nothing that is said of it
    settle-keeps :
        (no' : Text) (found : Option (Order pkg))
        → ((order : Order pkg)
            → found ≡ some order
            → n.out_trade_no ≡ no'
            → is_success n.trade_status ≡ true
            → money_matches pkg.dec n order.money ≡ true
            → true ≡ false)
        → Recorded no' found history
        → Recorded no' found Later
    settle-keeps no' none unpaid h = h
    settle-keeps no' (some order) unpaid (named, created, paid) = (
      named,
      created,
      (
        λ h. inr (paid.0 h),
        λ h. elim h [
          | inl pays ↦ cc (
              unpaid order refl pays.same_order ((is_success_iff pkg.dec n).1 pays.success)
                ((money_matches_iff pkg.dec n order.money).1 pays.same_amount))
          | inr before ↦ paid.1 before
        ],
      ),
    )

    settle_amount-AllSound :
        (orders : Orders pkg http p ctx) (order : Order pkg) (matches : Bool)
        → AllSound history orders
        → BTreeMap.lookup n.out_trade_no orders ≡ some order
        → is_success n.trade_status ≡ true
        → money_matches pkg.dec n order.money ≡ matches
        → AllSound Later (settle_amount pkg matches n order orders).1
    unfolding settle_amount
    settle_amount-AllSound orders order false sound found success e = λ no'.
        settle-keeps no' (BTreeMap.lookup no' orders)
          (λ other there same _ pays.
            (let alike : some order ≡ some other =
                sym found ∙ ap (λ k. BTreeMap.lookup k orders) same ∙ there in
              let alike' : order ≡ other = cc (alike) in
              cc (e, pays, ap (λ o. money_matches pkg.dec n o.money) alike')))
          (sound no')
    settle_amount-AllSound orders order true sound found success e =
        let (params, readable, authentic) =
          (verified_notify_iff http p pkg (λ c. c) request ctx n).0 accepted in
        let k = n.out_trade_no in
        let before : Recorded k (some order) history =
          subst (λ o. Recorded k o history) found (sound k) in
        let pays : IsPayment pkg http p ctx k order.money request n = record {
          params = params;
          readable = readable;
          authentic = authentic;
          same_order = refl;
          success = (is_success_iff pkg.dec n).0 success;
          same_amount = (money_matches_iff pkg.dec n order.money).0 e;
        } in
        insert-AllSound history Later orders k (record order { paid = true; trade_no = n.trade_no })
          sound (before.0, before.1, (λ _. inl pays, λ _. refl))
          (λ no' found' other.
            settle-keeps no' found'
              (λ o there same _ _. cc (other, ap (text_eq k) same, text_eq_refl k)))

    settle_order-AllSound :
        (orders : Orders pkg http p ctx) (found : Option (Order pkg))
        → AllSound history orders
        → BTreeMap.lookup n.out_trade_no orders ≡ found
        → is_success n.trade_status ≡ true
        → AllSound Later (settle_order pkg n found orders).1
    unfolding settle_order
    settle_order-AllSound orders none sound e success = λ no'.
        settle-keeps no' (BTreeMap.lookup no' orders)
          (λ other there same _ _. cc (e, there, ap (λ k. BTreeMap.lookup k orders) same))
          (sound no')
    settle_order-AllSound orders (some order) sound e success =
        settle_amount-AllSound orders order (money_matches pkg.dec n order.money) sound e success
          refl

    settle-AllSound :
        (orders : Orders pkg http p ctx)
        → AllSound history orders
        → AllSound Later (notify pkg n orders).1
    unfolding notify settle_success
    settle-AllSound orders sound = elim (Bool-cases (is_success n.trade_status)) [
      | inl success ↦
          rw (try_into_success-eq-ok pkg.dec n success) (
            settle_order-AllSound orders (BTreeMap.lookup n.out_trade_no orders) sound refl success)
      | inr failed ↦ rw (try_into_success-eq-err pkg.dec n failed) (λ no'.
          settle-keeps no' (BTreeMap.lookup no' orders) (λ _ _ _ success _. cc (failed, success))
            (sound no'))
    ]

  Step-AllSound :
      (history : Past) {event : Event pkg http p ctx} {orders later : Orders pkg http p ctx}
      → Step pkg http p ctx event orders later
      → AllSound history orders
      → AllSound (event ∷ history) later
  Step-AllSound history {orders = orders} (place k name money channel) sound =
      place-AllSound history orders k name money channel sound
  Step-AllSound history {orders = orders} (number k trade_no) sound =
      number-AllSound history orders k trade_no sound
  Step-AllSound history {orders = orders} (settle request n accepted) sound =
      settle-AllSound history request n accepted orders sound

  -- However the requests of the payers and of the gateway follow each other, the shop finds under a
  -- number the order that was last placed under it, with the name, the amount and the channel that it
  -- was placed with, and no order if none was placed. The order is paid exactly when since then an
  -- authentic notification has reported the payment of that amount for that number.
  pub reachable-AllSound :
      {history : Past} {orders : Orders pkg http p ctx}
      → Reachable pkg http p ctx history orders
      → AllSound history orders
  reachable-AllSound start no' = rw (lookup-nil {V = Order pkg} no') tt
  reachable-AllSound (next {history} before step) no' =
      Step-AllSound history step (reachable-AllSound before) no'
