-- ===== src/Crates/Reqwest.antt =====
-- The package `reqwest`: its client, requests and responses, with the state of the network passed
-- explicitly. `Url` is the type of addresses.
pub mod Toy
use epay_sdk_rust.Common.{ℕ, ◌≡◌, ◌⊎◌, Bool, Option, none, some, List, [], ◌∷◌}
use epay_sdk_rust.Text.{Text, Bytes}
use epay_sdk_rust.Config.Retry.{Duration}

-- what `reqwest::Error` tells of itself
pub record ReqwestError : Type 0 where
  pub is_timeout : Bool
  pub is_connect : Bool
  pub is_redirect : Bool
  pub is_body : Bool
  pub is_decode : Bool
  pub is_builder : Bool
  pub is_request : Bool

-- the result of a call of reqwest
pub data Tried {ℓ} (T : Type ℓ) : Type ℓ where
  done : (value : T) → Tried T
  failed : (error : ReqwestError) → Tried T

-- `reqwest::redirect::Policy`, as far as it is used
pub data Redirects : Type 0 where
  follow none_allowed : Redirects

-- `reqwest::ClientBuilder`: the settings that the source makes
pub record Settings : Type 0 where
  pub timeout : Duration
  pub connect_timeout : Option Duration
  pub redirect : Redirects
  pub user_agent : Text
  pub rustls : Bool

-- a request before it is sent
pub record RequestBuilder (Url : Type 0) : Type 0 where
  pub method : Text
  pub url : Url
  pub form : Option (List (Text × Text))
  pub timeout : Option Duration

-- what `chunk` gives at the end of a body
abbrev pub end_of : Option ReqwestError → Tried (Option Bytes)
end_of none = done none
end_of (some e) = failed e

pub record Reqwest (Url : Type 0) : Type 1 where
  pub HttpClient : Type 0
  pub World : Type 0
  pub Response : Type 0
  pub build : Settings → Tried HttpClient
  pub send : HttpClient → RequestBuilder Url → World → Tried Response × World
  pub status : Response → ℕ
  pub content_length : Response → Option ℕ
  -- the next chunk of the body, the response behind it, and the state of the network
  pub chunk : Response → World → Tried (Option Bytes) × Response × World
  pub sleep : Duration → World → World
  -- The chunks that are still to come, with the failure that ends them, if one does. A body that is
  -- read ends: each chunk is the first of them.
  pub pending : Response → List Bytes
  pub breaks : Response → Option ReqwestError
  pub chunk_lem :
      (r : Response) (w : World)
      → ((c : Bytes) × (cs : List Bytes) × (pending r ≡ c ∷ cs)
          × ((chunk r w).0 ≡ done (some c))
          × (pending (chunk r w).1 ≡ cs)
          × (breaks (chunk r w).1 ≡ breaks r))
        ⊎ ((pending r ≡ []) × ((chunk r w).0 ≡ end_of (breaks r)))
