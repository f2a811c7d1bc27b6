-- ===== src/Error/Redact/Laws.antt =====
-- Runs of the masking functions.
use epay_sdk_rust.Common.{◌≡◌, refl}
use epay_sdk_rust.Text.{codes}
use epay_sdk_rust.Error.Redact.{redact_secrets}

masks_form : redact_secrets (codes "pid=1&key=abc&sign=ff") ≡ codes "pid=1&key=***&sign=***"
unfolding redact_secrets
masks_form = refl

masks_json :
    redact_secrets (codes "{\"key\": \"a\\\"b\",\"x\":1}") ≡ codes "{\"key\":\"***\",\"x\":1}"
unfolding redact_secrets
masks_json = refl

-- Only the first occurrence of a needle is looked at: `key=` behind another letter hides the field
-- that follows.
leaves_later : redact_secrets (codes "monkey=1&key=abc") ≡ codes "monkey=1&key=abc"
unfolding redact_secrets
leaves_later = refl
