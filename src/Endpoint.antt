-- ===== src/Endpoint.antt =====
-- endpoint.rs: the gateway's endpoints.
use epay_sdk_rust.Common.{Bool, ◌||◌, Option, none, some}
use epay_sdk_rust.Common.Int.{ℤ, pos, int_eq}
use epay_sdk_rust.Text.{Text, codes}
use epay_sdk_rust.Types.{mapi_path, api_path}

pub data Method : Type 0 where
  get post : Method

pub data Endpoint : Type 0 where
  create_payment query_order query_orders refund query_merchant query_settlements : Endpoint

-- `Endpoint::path`
unfoldable pub path : Endpoint → Text
path Endpoint.create_payment = mapi_path
path _ = api_path

-- `Endpoint::act`
unfoldable pub act : Endpoint → Option Text
act Endpoint.create_payment = none
act Endpoint.query_order = some (codes "order")
act Endpoint.query_orders = some (codes "orders")
act Endpoint.refund = some (codes "refund")
act Endpoint.query_merchant = some (codes "query")
act Endpoint.query_settlements = some (codes "settle")

-- `Endpoint::is_success_code`
unfoldable pub is_success_code : Endpoint → ℤ → Bool
is_success_code Endpoint.refund code = int_eq code (pos 0) || int_eq code (pos 1)
is_success_code _ code = int_eq code (pos 1)

-- `Endpoint::label`
unfoldable pub label : Endpoint → Text
label Endpoint.create_payment = codes "mapi.php"
label Endpoint.query_order = codes "api.php?act=order"
label Endpoint.query_orders = codes "api.php?act=orders"
label Endpoint.refund = codes "api.php?act=refund"
label Endpoint.query_merchant = codes "api.php?act=query"
label Endpoint.query_settlements = codes "api.php?act=settle"

-- `Endpoint::method`
unfoldable pub method : Endpoint → Method
method Endpoint.create_payment = Method.post
method Endpoint.refund = Method.post
method _ = Method.get
