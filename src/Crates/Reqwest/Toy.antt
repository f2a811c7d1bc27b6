-- ===== src/Crates/Reqwest/Toy.antt =====
-- An instance of reqwest whose network is a script of responses.
use epay_sdk_rust.Common.{
  ℕ, ◌≡◌, refl, ◌⊎◌, inl, inr, true, false, Option, some, List, [], ◌∷◌, ◌++◌,
}
use epay_sdk_rust.Text.{Bytes}
use epay_sdk_rust.Crates.Reqwest.{
  Reqwest, ReqwestError, Tried, done, failed, end_of, Settings, RequestBuilder,
}

pub record ToyResponse : Type 0 where
  pub code : ℕ
  pub announced : Option ℕ
  pub pieces : List Bytes
  pub broken : Option ReqwestError

-- the responses that are left and the requests that were sent
pub record ToyWorld (Url : Type 0) : Type 0 where
  pub script : List ToyResponse
  pub sent : List (RequestBuilder Url)

abbrev pub gone : ReqwestError
gone = record {
  is_timeout = false;
  is_connect = true;
  is_redirect = false;
  is_body = false;
  is_decode = false;
  is_builder = false;
  is_request = true;
}

abbrev pub next_response : List ToyResponse → Tried ToyResponse × List ToyResponse
next_response [] = (failed gone, [])
next_response (r ∷ script) = (done r, script)

unfoldable pub toy_send :
    {Url : Type 0} → Settings → RequestBuilder Url → ToyWorld Url → Tried ToyResponse × ToyWorld Url
toy_send settings request w =
    let (response, script) = next_response w.script in
    (response, record { script = script; sent = w.sent ++ request ∷ [] })

abbrev pub first_piece :
    {W : Type 0} → List Bytes → ToyResponse → W → Tried (Option Bytes) × ToyResponse × W
first_piece [] r w = (end_of r.broken, r, w)
first_piece (piece ∷ pieces) r w = (done (some piece), record r { pieces = pieces }, w)

pub toy_chunk_lem :
    {W : Type 0} (pieces : List Bytes) (r : ToyResponse) (w : W)
    → ((c : Bytes) × (cs : List Bytes) × (pieces ≡ c ∷ cs)
        × ((first_piece pieces r w).0 ≡ done (some c))
        × ((first_piece pieces r w).1.pieces ≡ cs)
        × ((first_piece pieces r w).1.broken ≡ r.broken))
      ⊎ ((pieces ≡ []) × ((first_piece pieces r w).0 ≡ end_of r.broken))
toy_chunk_lem [] r w = inr (refl, refl)
toy_chunk_lem (piece ∷ pieces) r w = inl (piece, pieces, refl, refl, refl, refl)

unfoldable pub toy_reqwest : (Url : Type 0) → Reqwest Url
unfolding toy_send
toy_reqwest Url = record {
  HttpClient = Settings;
  World = ToyWorld Url;
  Response = ToyResponse;
  build = λ settings. done settings;
  send = λ client request w. toy_send client request w;
  status = λ r. r.code;
  content_length = λ r. r.announced;
  chunk = λ r w. first_piece r.pieces r w;
  sleep = λ d w. w;
  pending = λ r. r.pieces;
  breaks = λ r. r.broken;
  chunk_lem = λ r w. toy_chunk_lem r.pieces r w;
}
