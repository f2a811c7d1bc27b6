-- ===== src/Order/Checked.antt =====
-- What the client checks of the orders that the gateway returns.
use epay_sdk_rust.Common.{
  ℕ, ◌≡◌, refl, ◌↔◌, false, List, [], ◌∷◌, arith, ◌==◌, if◌then◌else◌, ==_iff, All,
}
use epay_sdk_rust.Text.Laws.{text_eq_iff}
use epay_sdk_rust.Common.Int.{is_negative}
use epay_sdk_rust.Endpoint.{Endpoint}
use epay_sdk_rust.Crates.Decimals.{Decimals}
use epay_sdk_rust.Error.{ok, err, map_err, >>=-eq-ok, branch-eq-ok, guard-eq-ok, map_err-eq-ok}
use epay_sdk_rust.Validation.{Identifier, validate_out_trade_no, validate_trade_no}
use epay_sdk_rust.Money.{Money}
use epay_sdk_rust.Order.{
  OrderQueryRequest, identifier, OrderDetail, OrderListResponse, check_identifier, amount,
  validate_row, validate_order, validate_rows, validate_orders,
}

-- the order carries the identifier that was asked for
abbrev pub Names : OrderDetail → Identifier → Type 0
Names order (Identifier.trade_no expected) = order.trade_no ≡ expected
Names order (Identifier.out_trade_no expected) = order.out_trade_no ≡ expected

check_identifier_iff :
    (order : OrderDetail) (id : Identifier) → (check_identifier order id ≡ ok tt) ↔ Names order id
unfolding check_identifier
check_identifier_iff order (Identifier.trade_no expected) =
    ground (arith, text_eq_iff order.trade_no expected)
check_identifier_iff order (Identifier.out_trade_no expected) =
    ground (arith, text_eq_iff order.out_trade_no expected)

module _ (dec : Decimals) where
  -- a row of the configured merchant, with valid order numbers and an exact positive amount
  pub record IsRow (pid : ℕ) (order : OrderDetail) : Type 0 where
    pub trade_no : validate_trade_no order.trade_no ≡ ok tt
    pub out_trade_no : validate_out_trade_no order.out_trade_no ≡ ok tt
    pub merchant : order.pid ≡ pid
    pub money : (m : Money dec) × (amount dec order ≡ ok m)

  validate_row-IsRow :
      (endpoint : Endpoint) (pid : ℕ) (order : OrderDetail)
      → validate_row dec endpoint pid order ≡ ok tt
      → IsRow pid order
  unfolding validate_row
  validate_row-IsRow endpoint pid order h =
      let (_, t, h₁) = >>=-eq-ok (map_err (validate_trade_no order.trade_no) _) _ h in
      let (_, o, h₂) = >>=-eq-ok (map_err (validate_out_trade_no order.out_trade_no) _) _ h₁ in
      let (_, p, h₃) = >>=-eq-ok (if order.pid == pid then ok tt else err _) _ h₂ in
      let (m, money, _) = >>=-eq-ok (map_err (amount dec order) _) _ h₃ in
      record {
        trade_no = map_err-eq-ok (validate_trade_no order.trade_no) _ t;
        out_trade_no = map_err-eq-ok (validate_out_trade_no order.out_trade_no) _ o;
        merchant = (==_iff order.pid pid).0 (branch-eq-ok (order.pid == pid) (ok tt) _ p).0;
        money = (m, map_err-eq-ok (amount dec order) _ money);
      }

  IsRow-validate_row :
      (endpoint : Endpoint) (pid : ℕ) (order : OrderDetail)
      → IsRow pid order
      → validate_row dec endpoint pid order ≡ ok tt
  unfolding validate_row
  IsRow-validate_row endpoint pid order r =
      rw (r.trade_no, r.out_trade_no, (==_iff order.pid pid).1 r.merchant, r.money.1)

  validate_order_sound :
      (request : OrderQueryRequest) (pid : ℕ) (order : OrderDetail)
      → validate_order dec request pid order ≡ ok tt
      → ((id : Identifier) × (identifier request ≡ ok id) × Names order id) × IsRow pid order
  unfolding validate_order
  validate_order_sound request pid order h =
      let (id, asked, h₁) = >>=-eq-ok (identifier request) _ h in
      let (_, named, h₂) = >>=-eq-ok (check_identifier order id) _ h₁ in
      (
        (id, asked, (check_identifier_iff order id).0 named),
        validate_row-IsRow Endpoint.query_order pid order h₂,
      )

  -- The answer to an order query is accepted exactly when the query has one valid identifier, the
  -- order carries that identifier, belongs to the configured merchant, and has valid order numbers
  -- and an exact positive amount.
  pub validate_order_iff :
      (request : OrderQueryRequest) (pid : ℕ) (order : OrderDetail)
      → (validate_order dec request pid order ≡ ok tt)
        ↔ (((id : Identifier) × (identifier request ≡ ok id) × Names order id) × IsRow pid order)
  validate_order_iff request pid order = (
    validate_order_sound request pid order,
    λ ((id, asked, named), row).
        unfold validate_order in
        rw (
          asked,
          (check_identifier_iff order id).1 named,
          IsRow-validate_row Endpoint.query_order pid order row,
        ),
  )

  validate_rows-All :
      (endpoint : Endpoint) (pid : ℕ) (orders : List OrderDetail)
      → validate_rows dec endpoint pid orders ≡ ok tt
      → All (IsRow pid) orders
  unfolding validate_rows
  validate_rows-All endpoint pid [] h = tt
  validate_rows-All endpoint pid (order ∷ orders) h =
      let (_, row, rest) = >>=-eq-ok (validate_row dec endpoint pid order) _ h in
      (validate_row-IsRow endpoint pid order row, validate_rows-All endpoint pid orders rest)

  All-validate_rows :
      (endpoint : Endpoint) (pid : ℕ) (orders : List OrderDetail)
      → All (IsRow pid) orders
      → validate_rows dec endpoint pid orders ≡ ok tt
  unfolding validate_rows
  All-validate_rows endpoint pid [] h = refl
  All-validate_rows endpoint pid (order ∷ orders) (row, rest) =
      rw (IsRow-validate_row endpoint pid order row, All-validate_rows endpoint pid orders rest)

  validate_orders_sound :
      (pid : ℕ) (list : OrderListResponse)
      → validate_orders dec pid list ≡ ok tt
      → (is_negative list.count ≡ false) × All (IsRow pid) list.orders
  unfolding validate_orders
  validate_orders_sound pid list h =
      let (count, rows) = guard-eq-ok (is_negative list.count) _ _ h in
      (count, validate_rows-All Endpoint.query_orders pid list.orders rows)

  -- A page of orders is accepted exactly when its count is not negative and every row of it is one
  -- of the configured merchant, with valid order numbers and an exact positive amount.
  pub validate_orders_iff :
      (pid : ℕ) (list : OrderListResponse)
      → (validate_orders dec pid list ≡ ok tt)
        ↔ ((is_negative list.count ≡ false) × All (IsRow pid) list.orders)
  validate_orders_iff pid list = (
    validate_orders_sound pid list,
    λ (count, rows).
        unfold validate_orders in
        rw (count, All-validate_rows Endpoint.query_orders pid list.orders rows),
  )
