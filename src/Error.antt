-- ===== src/Error.antt =====
-- error.rs: the error type, its classification and its log-safe constructors.
pub mod Redact
pub mod Codes
pub mod Kept
use epay_sdk_rust.Common.{
  ℕ, ◌≡◌, refl, Bool, true, false, ◌&&◌, Option, none, some, ◌++◌, arith, leb, if◌then◌else◌, take,
}
use epay_sdk_rust.Common.Int.{ℤ, pos}
use epay_sdk_rust.Text.{Text, Bytes, codes}
use epay_sdk_rust.Text.Utf8.{from_utf8_lossy}
use epay_sdk_rust.Endpoint.{Endpoint}
use Redact.{redact_secrets}

pub data TransportErrorKind : Type 0 where
  timeout connect redirect body request other : TransportErrorKind

pub data ErrorKind : Type 0 where
  config invalid_parameter verification provider transport invalid_response : ErrorKind

pub data Error : Type 0 where
  config : Text → Error
  param : Text → Error
  notify : (message : Text) → Error
  verify_failed : Error
  api : (endpoint : Endpoint) (code : ℤ) (message : Text) → Error
  transport : (kind : TransportErrorKind) (message : Text) → Error
  http : (status : ℕ) (body : Text) → Error
  invalid_response : (endpoint : Endpoint) (message : Text) → Error
  response_too_large : (limit : ℕ) → Error

-- `crate::error::Result`
pub data Result {ℓ} (T : Type ℓ) : Type ℓ where
  ok : (value : T) → Result T
  err : (error : Error) → Result T

-- `Result::map_err` with a constant, and `Option::ok_or`
abbrev pub map_err {ℓ} : {T : Type ℓ} → Result T → Error → Result T
map_err (err _) error = err error
map_err (ok value) error = ok value

abbrev pub ok_or {ℓ} : {T : Type ℓ} → Option T → Error → Result T
ok_or (some value) error = ok value
ok_or none error = err error

-- The `?` operator: the rest of the function runs on the value.
infixl 5 ◌>>=◌
abbrev pub ◌>>=◌ {ℓ κ} : {T : Type ℓ} {U : Type κ} → Result T → (T → Result U) → Result U
err error >>= rest = err error
ok value >>= rest = rest value

-- `?` on a check, whose value is dropped
infixl 5 ◌>>◌
abbrev pub ◌>>◌ {κ} : {U : Type κ} → Result (Unit {0}) → Result U → Result U
check >> rest = check >>= (λ done. rest)

-- a function that returns a value went through its `?`
pub >>=-eq-ok {ℓ κ} :
    {T : Type ℓ} {U : Type κ} (tried : Result T) (rest : T → Result U) {out : U}
    → (tried >>= rest) ≡ ok out
    → (value : T) × (tried ≡ ok value) × (rest value ≡ ok out)
>>=-eq-ok (err error) rest returned = cc
>>=-eq-ok (ok value) rest returned = (value, refl, returned)

pub ok_or-eq-ok {ℓ} :
    {A : Type ℓ} (o : Option A) (e : Error) {a : A} → ok_or o e ≡ ok a → o ≡ some a
ok_or-eq-ok none e h = cc
ok_or-eq-ok (some a) e h = ground arith

pub guard-eq-ok {ℓ} :
    {A : Type ℓ} (b : Bool) (e : Error) (m : Result A) {a : A}
    → (if b then err e else m) ≡ ok a
    → (b ≡ false) × (m ≡ ok a)
guard-eq-ok true e m h = cc
guard-eq-ok false e m h = (refl, h)

pub branch-eq-ok {ℓ} :
    {A : Type ℓ} (b : Bool) (m : Result A) (e : Error) {a : A}
    → (if b then m else err e) ≡ ok a
    → (b ≡ true) × (m ≡ ok a)
branch-eq-ok true m e h = (refl, h)
branch-eq-ok false m e h = cc

pub map_err-eq-ok {ℓ} :
    {A : Type ℓ} (m : Result A) (e : Error) {a : A} → map_err m e ≡ ok a → m ≡ ok a
map_err-eq-ok (ok a) e h = h
map_err-eq-ok (err _) e h = cc

pub ok-injective {ℓ} : {A : Type ℓ} {a b : A} → ok a ≡ ok b → a ≡ b
ok-injective h = cc

-- `Error::kind`
unfoldable pub kind : Error → ErrorKind
kind (Error.config _) = ErrorKind.config
kind (Error.param _) = ErrorKind.invalid_parameter
kind (Error.notify _) = ErrorKind.invalid_parameter
kind Error.verify_failed = ErrorKind.verification
kind (Error.api _ _ _) = ErrorKind.provider
kind (Error.transport _ _) = ErrorKind.transport
kind (Error.http _ _) = ErrorKind.transport
kind (Error.response_too_large _) = ErrorKind.transport
kind (Error.invalid_response _ _) = ErrorKind.invalid_response

-- the module `code`
unfoldable pub kind_code : ErrorKind → ℤ
kind_code ErrorKind.config = pos 1001
kind_code ErrorKind.invalid_parameter = pos 1007
kind_code ErrorKind.verification = pos 1003
kind_code ErrorKind.provider = pos 1004
kind_code ErrorKind.transport = pos 1005
kind_code ErrorKind.invalid_response = pos 1006

-- `Error::code`
unfoldable pub code : Error → ℤ
unfolding kind kind_code
code e = kind_code (kind e)

-- `Error::endpoint`
unfoldable pub endpoint : Error → Option Endpoint
endpoint (Error.api e _ _) = some e
endpoint (Error.invalid_response e _) = some e
endpoint _ = none

-- `Error::transport_kind`
unfoldable pub transport_kind : Error → Option TransportErrorKind
transport_kind (Error.transport k _) = some k
transport_kind _ = none

-- `Error::is_timeout`
unfoldable pub is_timeout : Error → Bool
unfolding transport_kind
is_timeout e = elim (transport_kind e) [
  | none ↦ false
  | some k ↦ elim k [ timeout ↦ true | _ ↦ false ]
]

unfoldable pub is_retryable_kind : TransportErrorKind → Bool
is_retryable_kind TransportErrorKind.timeout = true
is_retryable_kind TransportErrorKind.connect = true
is_retryable_kind _ = false

-- `Error::is_retryable`
unfoldable pub is_retryable : Error → Bool
unfolding is_retryable_kind
is_retryable (Error.transport k _) = is_retryable_kind k
is_retryable (Error.http status _) = leb 502 status && leb status 504
is_retryable _ = false

-- `Error::transport`
unfoldable pub transport_error : TransportErrorKind → Text → Error
transport_error k message = Error.transport k (redact_secrets message)

-- `Error::notify`
unfoldable pub notify_error : Text → Error
notify_error message = Error.notify (redact_secrets message)

-- `Error::api`
unfoldable pub api_error : Endpoint → ℤ → Text → Error
api_error e c message = Error.api e c (redact_secrets message)

-- `body_preview`
unfoldable pub body_preview : Bytes → Text
body_preview bytes = take 256 (redact_secrets (from_utf8_lossy bytes))

-- `Error::invalid_response`, on the text of the error that it displays
unfoldable pub invalid_response_error : Endpoint → Text → Bytes → Error
unfolding body_preview
invalid_response_error e shown bytes =
    Error.invalid_response e (shown ++ codes ": " ++ body_preview bytes)

-- `Error::invalid_response_message`
unfoldable pub invalid_response_message : Endpoint → Text → Error
invalid_response_message e message = Error.invalid_response e (redact_secrets message)

-- `Error::http`
unfoldable pub http_error : ℕ → Bytes → Error
unfolding body_preview
http_error status bytes = Error.http status (body_preview bytes)

-- `Error::sanitized`
unfoldable pub sanitized : Error → Error
sanitized (Error.transport k message) = Error.transport k (redact_secrets message)
sanitized (Error.http status shown) = Error.http status (redact_secrets shown)
sanitized (Error.api e c message) = Error.api e c (redact_secrets message)
sanitized (Error.invalid_response e message) = Error.invalid_response e (redact_secrets message)
sanitized (Error.notify message) = Error.notify (redact_secrets message)
sanitized e = e
