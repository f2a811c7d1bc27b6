-- ===== src/Order/Paging.antt =====
-- The pages of an order list.
use epay_sdk_rust.Common.{ℕ, ◌+◌, ◌≤◌, min, max, ◌≡◌, ◌↔◌, some, arith, length}
use epay_sdk_rust.Order.{
  OrderListResponse, u32_max, clamp_limit, saturating_suc, has_more, next_page,
}

-- A next page is offered exactly when the page was full for the limit between 1 and 50 that the
-- client sends; it is the page behind the one asked for, page 0 counting as page 1, except that the
-- largest page number is followed by itself.
pub next_page_iff :
    (list : OrderListResponse) (page limit q : ℕ)
    → page ≤ u32_max
    → (next_page list page limit ≡ some q)
      ↔ ((max 1 (min limit 50) ≤ length list.orders) × (q ≡ min (max page 1 + 1) u32_max))
unfolding next_page has_more clamp_limit saturating_suc
next_page_iff list page limit q h = ground arith
