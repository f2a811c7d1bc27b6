-- ===== src/Crates/Http.antt =====
-- The packages `http` and `axum`: headers, request bodies and method routers.
use epay_sdk_rust.Common.{
  ℕ, ◌≤◌, ◌≡◌, Option, none, some, List, [], ◌∷◌, arith, ltb, if◌then◌else◌, length,
}
use epay_sdk_rust.Text.{Text, Bytes, text_eq}

pub record HttpCrate : Type 1 where
  pub HeaderMap : Type 0
  pub HeaderValue : Type 0
  pub header : HeaderMap → Text → Option HeaderValue
  -- `HeaderValue::to_str`; `none` is its error
  pub to_str : HeaderValue → Option Text
  pub Body : Type 0
  -- `axum::body::to_bytes`; `none` is its error
  pub to_bytes : Body → ℕ → Option Bytes
  -- `to_bytes` never returns more than the limit
  pub to_bytes-limit :
      (body : Body) (limit : ℕ) {bytes : Bytes}
      → to_bytes body limit ≡ some bytes
      → length bytes ≤ limit
  pub Handler : Type 0
  pub MethodRouter : Type 0
  -- `axum::routing::get`, `MethodRouter::post`
  pub get : Handler → MethodRouter
  pub post : Handler → MethodRouter → MethodRouter

-- An instance whose headers are a list, whose body is its bytes, and whose router is the pair of its
-- handlers.
abbrev pub first_header : List (Text × Text) → Text → Option Text
first_header [] name = none
first_header ((k, v) ∷ headers) name = if text_eq k name then some v else first_header headers name

abbrev pub toy_to_bytes : Bytes → ℕ → Option Bytes
toy_to_bytes body limit = if ltb limit (length body) then none else some body

pub toy_to_bytes-limit :
    (body : Bytes) (limit : ℕ) {bytes : Bytes}
    → toy_to_bytes body limit ≡ some bytes
    → length bytes ≤ limit
toy_to_bytes-limit body limit h = grind arith

unfoldable pub toy_http : HttpCrate
toy_http = record {
  HeaderMap = List (Text × Text);
  HeaderValue = Text;
  header = first_header;
  to_str = some;
  Body = Bytes;
  to_bytes = toy_to_bytes;
  to_bytes-limit = toy_to_bytes-limit;
  Handler = Text;
  MethodRouter = Option Text × Option Text;
  get = λ handler. (some handler, none);
  post = λ handler router. (router.0, some handler);
}
