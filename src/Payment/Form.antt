-- ===== src/Payment/Form.antt =====
-- payment.rs: the signed form for `submit.php`, as HTML.
pub mod Escape
use epay_sdk_rust.Common.{ℕ, some, List, [], ◌∷◌, ◌++◌, ◌==◌, if◌then◌else◌}
use epay_sdk_rust.Text.{Text, codes}
use epay_sdk_rust.Crates.UrlCrate.{UrlCrate}
use epay_sdk_rust.Crates.Form.{FormUrlencoded}
use epay_sdk_rust.Params.{Params}

-- what `html_escape` pushes for one character
unfoldable pub escape_char : ℕ → Text
escape_char c =
    if c == b'&'
    then codes "&amp;"
    else if c == b'<'
    then codes "&lt;"
    else if c == b'>'
    then codes "&gt;"
    else if c == b'"'
    then codes "&quot;"
    else if c == b'\''
    then codes "&#39;"
    else c ∷ []

-- `html_escape`
unfoldable pub html_escape : Text → Text
html_escape [] = []
html_escape (c ∷ s) = escape_char c ++ html_escape s

-- one `<input>` of `hidden_inputs`
unfoldable pub hidden_input : Text × Text → Text
hidden_input (key, value) =
    codes "<input type=\"hidden\" name=\""
    ++ html_escape key
    ++ codes "\" value=\""
    ++ html_escape value
    ++ codes "\">"

-- `PreparedForm::hidden_inputs`
unfoldable pub hidden_fields : List (Text × Text) → Text
hidden_fields [] = []
hidden_fields (entry ∷ entries) = hidden_input entry ++ hidden_fields entries

module _ (c : UrlCrate) where
  pub record PreparedForm : Type 0 where
    pub action : c.Url
    pub params : Params

  unfoldable pub hidden_inputs : PreparedForm → Text
  hidden_inputs form = hidden_fields form.params.inner

  -- `PreparedForm::redirect_url`
  unfoldable pub redirect_url : FormUrlencoded → PreparedForm → c.Url
  redirect_url enc form = c.set_query (some (enc.serialize form.params.inner)) form.action

  -- `PreparedForm::auto_submit_html`
  unfoldable pub auto_submit_html : PreparedForm → Text
  auto_submit_html form =
      codes "<!DOCTYPE html>\n<html>\n<head>\n    <meta charset=\"UTF-8\">\n"
      ++ codes "    <title>正在跳转到支付页面...</title>\n</head>\n<body>\n"
      ++ codes "    <form id=\"payForm\" method=\"POST\" action=\""
      ++ html_escape (c.as_str form.action)
      ++ codes "\">\n        "
      ++ hidden_inputs form
      ++ codes "\n    </form>\n"
      ++ codes "    <script>document.getElementById('payForm').submit();</script>\n"
      ++ codes "</body>\n</html>"
