-- ===== src/Server/History.antt =====
-- What happens to the shop, and what a history of it says of an order.
use epay_sdk_rust.Common.{◌≡◌, ◌↔◌, ◌⊎◌, true, false, Option, none, some, List, [], ◌∷◌}
use epay_sdk_rust.Text.{Text, codes, text_eq}
use epay_sdk_rust.Crates.Http.{HttpCrate}
use epay_sdk_rust.Crates.Percent.{PercentDecode}
use epay_sdk_rust.Params.{Params}
use epay_sdk_rust.Money.{Money}
use epay_sdk_rust.Notify.Verify.{NotifyData}
use epay_sdk_rust.Notify.Verify.Authentic.{IsAuthentic}
use epay_sdk_rust.Protocol.{Packages, ProtocolContext}
use epay_sdk_rust.Axum.{extracted, Request, verified_notify}
use epay_sdk_rust.Axum.Accepted.{IsReadable}
use epay_sdk_rust.Server.{Order, remember, notify, set_trade_no}

module _ (pkg : Packages) (http : HttpCrate) (p : PercentDecode)
    (ctx : ProtocolContext pkg.urls) where
  abbrev pub Orders : Type 0
  Orders = List (Text × Order pkg)

  -- A page places an order, a created payment gets its number, a notification that the extractor
  -- accepts arrives.
  pub data Event : Type 0 where
    placed : (no' name : Text) (money : Money pkg.dec) (channel : Text) → Event
    numbered : (no' trade_no : Text) → Event
    notified :
        (request : Request http) (n : NotifyData pkg.dec)
        → verified_notify http p pkg (λ c. c) request ctx ≡ extracted n
        → Event

  -- what has happened, the last event first
  abbrev pub History : Type 0
  History = List Event

  -- what the handlers make of the orders at an event
  pub data Step : Event → Orders → Orders → Type 0 where
    place :
        {orders : Orders} (no' name : Text) (money : Money pkg.dec) (channel : Text)
        → Step (placed no' name money channel) orders (remember pkg no' name money channel orders)
    number :
        {orders : Orders} (no' trade_no : Text)
        → Step (numbered no' trade_no) orders (set_trade_no pkg no' trade_no orders)
    settle :
        {orders : Orders} (request : Request http) (n : NotifyData pkg.dec)
        (accepted : verified_notify http p pkg (λ c. c) request ctx ≡ extracted n)
        → Step (notified request n accepted) orders (notify pkg n orders).1

  -- the orders that the shop has after a history, in whatever order the requests come
  pub data Reachable : History → Orders → Type 0 where
    start : Reachable [] []
    next :
        {history : History} {event : Event} {orders later : Orders}
        → Reachable history orders
        → Step event orders later
        → Reachable (event ∷ history) later

  -- The last order that was placed under the number has this name, amount and channel.
  abbrev pub PlacedIn : Text → Text → Money pkg.dec → Text → History → Type 0
  PlacedIn no' name money channel [] = true ≡ false
  PlacedIn no' name money channel (placed k its_name its_money its_channel ∷ history) =
      (text_eq k no' ≡ true) × (its_name ≡ name) × (its_money ≡ money) × (its_channel ≡ channel)
      ⊎ (text_eq k no' ≡ false) × PlacedIn no' name money channel history
  PlacedIn no' name money channel (numbered _ _ ∷ history) = PlacedIn no' name money channel history
  PlacedIn no' name money channel (notified _ _ _ ∷ history) =
      PlacedIn no' name money channel history

  abbrev pub UnknownIn : Text → History → Type 0
  UnknownIn no' [] = Unit
  UnknownIn no' (placed k _ _ _ ∷ history) = (text_eq k no' ≡ false) × UnknownIn no' history
  UnknownIn no' (numbered _ _ ∷ history) = UnknownIn no' history
  UnknownIn no' (notified _ _ _ ∷ history) = UnknownIn no' history

  -- an authentic notification of the payment of the amount for the number
  pub record IsPayment (no' : Text) (money : Money pkg.dec) (request : Request http)
      (n : NotifyData pkg.dec) : Type 0 where
    pub params : Params
    pub readable : IsReadable http p request params
    pub authentic : IsAuthentic pkg.dec pkg.digest ctx.signer ctx.config.pid params n
    pub same_order : n.out_trade_no ≡ no'
    pub success : n.trade_status.value ≡ codes "TRADE_SUCCESS"
    pub same_amount : pkg.dec.scaled n.money.value ≡ pkg.dec.scaled money.value

  -- Since an order was last placed under the number, its payment of the amount was notified.
  abbrev pub PaidIn : Text → Money pkg.dec → History → Type 0
  PaidIn no' money [] = true ≡ false
  PaidIn no' money (placed k _ _ _ ∷ history) = (text_eq k no' ≡ false) × PaidIn no' money history
  PaidIn no' money (numbered _ _ ∷ history) = PaidIn no' money history
  PaidIn no' money (notified request n _ ∷ history) =
      IsPayment no' money request n ⊎ PaidIn no' money history

  -- The order is the last one placed under its number, with the name, the amount and the channel that
  -- it was placed with, and is paid exactly when that payment was notified since.
  abbrev pub IsSound : Text → Order pkg → History → Type 0
  IsSound no' order history =
      (order.out_trade_no ≡ no')
      × PlacedIn no' order.name order.money order.pay_type history
      × ((order.paid ≡ true) ↔ PaidIn no' order.money history)

  -- what the shop finds under a number
  abbrev pub IsRecorded : Text → Option (Order pkg) → History → Type 0
  IsRecorded no' none history = UnknownIn no' history
  IsRecorded no' (some order) history = IsSound no' order history
