-- ===== src/Client/Pages.antt =====
-- client.rs: `query_all_orders_with`, and when it ends.
use epay_sdk_rust.Common.{
  ℕ, zero, suc, ◌+◌, ◌≤◌, ◌<◌, ◌≡◌, refl, false, Option, none, some, List, [], ◌++◌, arith, leb,
  ◌==◌, if◌then◌else◌,
}
use epay_sdk_rust.Crates.SerdeJson.{SerdeJson, Decoded}
use epay_sdk_rust.Error.{Result, ok, err}
use epay_sdk_rust.Order.{
  OrderDetail, OrderListResponse, u32_max, clamp_limit, saturating_suc, next_page,
}
use epay_sdk_rust.Protocol.{Packages}
use epay_sdk_rust.Transport.{Transport}
use epay_sdk_rust.Client.Call.{CallOptions, Client}
use epay_sdk_rust.Client.{query_orders}

-- the next page, if the loop goes on
unfoldable pub following : Option ℕ → ℕ → Option ℕ
following none max_pages = none
following (some page) max_pages = if leb page max_pages then some page else none

module _ (pkg : Packages) (json : SerdeJson) (net : Transport pkg.urls)
    (decode : json.Value → Decoded OrderListResponse) (client : Client pkg) (limit : ℕ)
    (max_pages : ℕ) (options : CallOptions) where
  open net use {World}

  -- The rest of the loop's body, on the answer to a page; `again` is the next round.
  unfoldable pub settle_page :
      (ℕ → List OrderDetail → World → Option (Result (List OrderDetail) × World))
      → ℕ
      → List OrderDetail
      → Result OrderListResponse
      → World
      → Option (Result (List OrderDetail) × World)
  settle_page again page orders (err e) w = some (err e, w)
  settle_page again page orders (ok response) w =
      elim (following (next_page response page limit) max_pages) [
        | none ↦ some (ok (orders ++ response.orders), w)
        | some page' ↦ again page' (orders ++ response.orders) w
      ]

  -- The loop of `query_all_orders_with`. The fuel bounds the pages; `none` is a loop that has not
  -- ended by then.
  unfoldable pub page_loop :
      ℕ → ℕ → List OrderDetail → World → Option (Result (List OrderDetail) × World)
  page_loop zero page orders w = none
  page_loop (suc f) page orders w =
      let (answer, w₁) = query_orders pkg json net decode client limit page options w in
      settle_page (λ page' orders' w₂. page_loop f page' orders' w₂) page orders answer w₁

module _ (pkg : Packages) (json : SerdeJson) (net : Transport pkg.urls) where
  -- `Client::query_all_orders_with`
  unfoldable pub query_all_orders :
      (json.Value → Decoded OrderListResponse)
      → ℕ
      → Client pkg
      → ℕ
      → ℕ
      → CallOptions
      → net.World
      → Option (Result (List OrderDetail) × net.World)
  query_all_orders decode fuel client limit max_pages options w =
      if max_pages == 0
      then some (ok [], w)
      else page_loop pkg json net decode client (clamp_limit limit) max_pages options fuel 1 [] w

module _ (pkg : Packages) (json : SerdeJson) (net : Transport pkg.urls)
    (decode : json.Value → Decoded OrderListResponse) (client : Client pkg) (limit : ℕ)
    (max_pages : ℕ) (options : CallOptions) (bounded : max_pages < u32_max) where
  following-next_page :
      (response : OrderListResponse) (page page' : ℕ)
      → page ≤ max_pages
      → 1 ≤ page
      → following (next_page response page limit) max_pages ≡ some page'
      → (page' ≡ suc page) × (page' ≤ max_pages)
  unfolding following next_page saturating_suc
  following-next_page response page page' h k e = ground arith

  abbrev Outcome : Type 0
  Outcome = Result (List OrderDetail) × net.World

  continue_ends :
      (o : Option ℕ) (stop : Outcome) (go : ℕ → Option Outcome)
      → ((p : ℕ) → o ≡ some p → (r : Outcome) × (go p ≡ some r))
      → (r : Outcome) × ((elim o as (λ x. Option Outcome) [ none ↦ some stop | some p ↦ go p ])
          ≡ some r)
  continue_ends none stop go h = (stop, refl)
  continue_ends (some p) stop go h = h p refl

  settle_page_ends :
      (again : ℕ → List OrderDetail → net.World → Option Outcome) (page : ℕ)
      (orders : List OrderDetail) (answer : Result OrderListResponse) (w : net.World)
      → ((response : OrderListResponse) (p : ℕ)
          → following (next_page response page limit) max_pages ≡ some p
          → (r : Outcome) × (again p (orders ++ response.orders) w ≡ some r))
      → (r : Outcome) × (settle_page pkg json net decode client limit max_pages options again page
            orders answer w
          ≡ some r)
  unfolding settle_page
  settle_page_ends again page orders (err e) w h = ((err e, w), refl)
  settle_page_ends again page orders (ok response) w h =
      continue_ends (following (next_page response page limit) max_pages)
        (ok (orders ++ response.orders), w) (λ p. again p (orders ++ response.orders) w)
        (h response)

  page_loop_ends :
      (f page : ℕ) (orders : List OrderDetail) (w : net.World)
      → 1 ≤ page
      → page ≤ max_pages
      → max_pages < page + f
      → (r : Outcome) × (page_loop pkg json net decode client limit max_pages options f page orders
            w
          ≡ some r)
  unfolding page_loop
  page_loop_ends zero page orders w h k l = ground arith
  page_loop_ends (suc f) page orders w h k l = settle_page_ends _ page orders _ _ λ response p e.
      let (next, within) = following-next_page response page p k h e in
      page_loop_ends f p _ _ (omega arith) within (omega arith)

module _ (pkg : Packages) (json : SerdeJson) (net : Transport pkg.urls)
    (decode : json.Value → Decoded OrderListResponse) (client : Client pkg) where
  -- Collecting the orders of all pages ends after at most `max_pages` pages, whatever the gateway
  -- answers, for every `max_pages` below the largest 32-bit number.
  pub query_all_orders_ends :
      (limit max_pages : ℕ) (options : CallOptions) (w : net.World)
      → max_pages < u32_max
      → (r : Result (List OrderDetail) × net.World) × (query_all_orders pkg json net decode
            max_pages client limit max_pages options w
          ≡ some r)
  unfolding query_all_orders
  query_all_orders_ends limit zero options w h = ((ok [], w), refl)
  query_all_orders_ends limit (suc n) options w h =
      let positive : (suc n == 0) ≡ false = ground arith in
      let (r, e) =
        page_loop_ends pkg json net decode client (clamp_limit limit) (suc n) options h (suc n) 1 []
          w (omega arith) (omega arith) (omega arith) in
      (r, rw positive e)
