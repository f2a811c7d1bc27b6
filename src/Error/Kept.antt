-- ===== src/Error/Kept.antt =====
-- The classification of errors.
use epay_sdk_rust.Common.{◌≡◌, refl, ◌↔◌, ◌⊎◌, true, arith}
use epay_sdk_rust.Error.{Error, TransportErrorKind, kind, code, is_timeout, is_retryable, sanitized}

-- the errors that may pass by themselves
abbrev pub IsTransientError : Error → Type 0
IsTransientError (Error.transport k _) =
    (k ≡ TransportErrorKind.timeout) ⊎ (k ≡ TransportErrorKind.connect)
IsTransientError (Error.http status _) = (status ≡ 502) ⊎ (status ≡ 503) ⊎ (status ≡ 504)
IsTransientError (Error.config _) = ⊥
IsTransientError (Error.param _) = ⊥
IsTransientError (Error.notify _) = ⊥
IsTransientError Error.verify_failed = ⊥
IsTransientError (Error.api _ _ _) = ⊥
IsTransientError (Error.invalid_response _ _) = ⊥
IsTransientError (Error.response_too_large _) = ⊥

is_retryable_cases : (e : Error) → (is_retryable e ≡ true) ↔ IsTransientError e
unfolding is_retryable
is_retryable_cases (Error.transport TransportErrorKind.timeout m) = ground arith
is_retryable_cases (Error.transport TransportErrorKind.connect m) = ground arith
is_retryable_cases (Error.transport TransportErrorKind.redirect m) = ground arith
is_retryable_cases (Error.transport TransportErrorKind.body m) = ground arith
is_retryable_cases (Error.transport TransportErrorKind.request m) = ground arith
is_retryable_cases (Error.transport TransportErrorKind.other m) = ground arith
is_retryable_cases (Error.http status m) = ground arith
is_retryable_cases (Error.config m) = ground arith
is_retryable_cases (Error.param m) = ground arith
is_retryable_cases (Error.notify m) = ground arith
is_retryable_cases Error.verify_failed = ground arith
is_retryable_cases (Error.api a b m) = ground arith
is_retryable_cases (Error.invalid_response a m) = ground arith
is_retryable_cases (Error.response_too_large n) = ground arith

sanitized_keeps :
    (e : Error)
    → (is_retryable (sanitized e) ≡ is_retryable e)
      × (kind (sanitized e) ≡ kind e)
      × (code (sanitized e) ≡ code e)
      × (is_timeout (sanitized e) ≡ is_timeout e)
unfolding is_retryable sanitized kind code is_timeout
sanitized_keeps (Error.config m) = (refl, refl, refl, refl)
sanitized_keeps (Error.param m) = (refl, refl, refl, refl)
sanitized_keeps (Error.notify m) = (refl, refl, refl, refl)
sanitized_keeps Error.verify_failed = (refl, refl, refl, refl)
sanitized_keeps (Error.api a b m) = (refl, refl, refl, refl)
sanitized_keeps (Error.transport k m) = (refl, refl, refl, refl)
sanitized_keeps (Error.http status m) = (refl, refl, refl, refl)
sanitized_keeps (Error.invalid_response a m) = (refl, refl, refl, refl)
sanitized_keeps (Error.response_too_large n) = (refl, refl, refl, refl)

-- An error is worth another attempt exactly when the connection timed out or was not made, or the
-- gateway answered 502, 503 or 504; and masking the secrets of an error changes neither this nor
-- its kind, its code or whether it is a timeout.
pub is_retryable_lem :
    (e : Error)
    → ((is_retryable e ≡ true) ↔ IsTransientError e)
      × (is_retryable (sanitized e) ≡ is_retryable e)
      × (kind (sanitized e) ≡ kind e)
      × (code (sanitized e) ≡ code e)
      × (is_timeout (sanitized e) ≡ is_timeout e)
is_retryable_lem e = let (a, b, c, d) = sanitized_keeps e in (is_retryable_cases e, a, b, c, d)
