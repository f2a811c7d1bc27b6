-- ===== src/Protocol/Filled.antt =====
-- The fields of a form payment, each with the value that it must have.
use epay_sdk_rust.Common.{
  ◌≡◌, refl, ◌∙◌, ap, false, Option, none, some, List, [], ◌∷◌, arith, any, if◌then◌else◌,
}
use epay_sdk_rust.Text.{Text, codes, text_eq}
use epay_sdk_rust.Text.Decimal.{to_string}
use epay_sdk_rust.Types.{pay_type_as_str}
use epay_sdk_rust.Money.{to_epay_string}
use epay_sdk_rust.Params.{Params, empty, get, insert_opt, is_unsigned}
use epay_sdk_rust.Params.Laws.{get-insert_opt}
use epay_sdk_rust.Payment.{FormPaymentRequest}
use epay_sdk_rust.Payment.Callbacks.{ResolvedCallbacks}
use epay_sdk_rust.Protocol.{map_opt, Packages, ProtocolContext, base_params, unsigned_form}

-- an empty value is not sent
abbrev pub sent : Option Text → Option Text
sent none = none
sent (some []) = none
sent (some (c ∷ s)) = some (c ∷ s)

-- the names of the fields, the last one first
abbrev pub form_fields : List Text
form_fields =
    codes "sitename"
    ∷ codes "param"
    ∷ codes "type"
    ∷ codes "money"
    ∷ codes "name"
    ∷ codes "return_url"
    ∷ codes "notify_url"
    ∷ codes "out_trade_no"
    ∷ codes "pid"
    ∷ []

-- the later of two values
abbrev over : Option Text → Option Text → Option Text
over none old = old
over (some v) old = some v

over-none : (o : Option Text) → over o none ≡ o
over-none none = refl
over-none (some v) = refl

-- the value of a key behind a sequence of insertions, the last one first
abbrev table : List (Text × Option Text) → Text → Option Text
table [] j = none
table ((k, o) ∷ fields) j = if text_eq k j then over (sent o) (table fields j) else table fields j

abbrev filled : List (Text × Option Text) → Params
filled [] = empty
filled ((k, o) ∷ fields) = insert_opt k o (filled fields)

table-none :
    (fields : List (Text × Option Text)) (j : Text)
    → any (λ field. text_eq field.0 j) fields ≡ false
    → table fields j ≡ none
table-none [] j h = refl
table-none ((k, o) ∷ fields) j h = ground (arith, h, table-none fields j)

get-insert_opt-sent :
    (k : Text) (o : Option Text) (p : Params) (j : Text)
    → get (insert_opt k o p) j ≡ (if text_eq k j then over (sent o) (get p j) else get p j)
get-insert_opt-sent k none p j = ground (arith, get-insert_opt k none p j)
get-insert_opt-sent k (some []) p j = ground (arith, get-insert_opt k (some []) p j)
get-insert_opt-sent k (some (c ∷ s)) p j = ground (arith, get-insert_opt k (some (c ∷ s)) p j)

get-filled :
    (fields : List (Text × Option Text)) (j : Text) → get (filled fields) j ≡ table fields j
unfolding get
get-filled [] j = refl
get-filled ((k, o) ∷ fields) j =
    get-insert_opt-sent k o (filled fields) j
    ∙ ap (λ old. if text_eq k j then over (sent o) old else old) (get-filled fields j)

module _ (pkg : Packages) (ctx : ProtocolContext pkg.urls) (req : FormPaymentRequest pkg.dec)
    (callbacks : ResolvedCallbacks) where
  -- Each field has its own value, left out where that is missing or empty, and beside the signature
  -- there is no other field.
  pub record IsFilled (params : Params) : Type 0 where
    pub pid : get params (codes "pid") ≡ sent (some (to_string ctx.config.pid))
    pub out_trade_no : get params (codes "out_trade_no") ≡ sent (some req.out_trade_no)
    pub notify_url : get params (codes "notify_url") ≡ sent (some callbacks.notify_url)
    pub return_url : get params (codes "return_url") ≡ sent callbacks.return_url
    pub name : get params (codes "name") ≡ sent (some req.name)
    pub money : get params (codes "money") ≡ sent (some (to_epay_string pkg.dec req.money))
    pub pay_type : get params (codes "type") ≡ sent (map_opt pay_type_as_str req.pay_type)
    pub param : get params (codes "param") ≡ sent req.param
    pub sitename : get params (codes "sitename") ≡ sent req.sitename
    pub others :
        (k : Text)
        → any (λ name. text_eq name k) form_fields ≡ false
        → text_eq k (codes "sign") ≡ false
        → text_eq k (codes "sign_type") ≡ false
        → get params k ≡ none

  abbrev fields : List (Text × Option Text)
  fields =
      (codes "sitename", req.sitename)
      ∷ (codes "param", req.param)
      ∷ (codes "type", map_opt pay_type_as_str req.pay_type)
      ∷ (codes "money", some (to_epay_string pkg.dec req.money))
      ∷ (codes "name", some req.name)
      ∷ (codes "return_url", callbacks.return_url)
      ∷ (codes "notify_url", some callbacks.notify_url)
      ∷ (codes "out_trade_no", some req.out_trade_no)
      ∷ (codes "pid", some (to_string ctx.config.pid))
      ∷ []

  unsigned_form-filled : unsigned_form pkg ctx req callbacks ≡ filled fields
  unfolding unsigned_form base_params insert_opt
  unsigned_form-filled = refl

  pub unsigned_form-IsFilled : IsFilled (unsigned_form pkg ctx req callbacks)
  unfolding text_eq
  unsigned_form-IsFilled = rw (unsigned_form-filled) (record {
    pid = get-filled fields (codes "pid") ∙ over-none _;
    out_trade_no = get-filled fields (codes "out_trade_no") ∙ over-none _;
    notify_url = get-filled fields (codes "notify_url") ∙ over-none _;
    return_url = get-filled fields (codes "return_url") ∙ over-none _;
    name = get-filled fields (codes "name") ∙ over-none _;
    money = get-filled fields (codes "money") ∙ over-none _;
    pay_type = get-filled fields (codes "type") ∙ over-none _;
    param = get-filled fields (codes "param") ∙ over-none _;
    sitename = get-filled fields (codes "sitename") ∙ over-none _;
    others = λ k h _ _. get-filled fields k ∙ table-none fields k h;
  })

  -- what has the same fields but for the signature is filled alike
  pub IsFilled-same :
      {p q : Params}
      → ((k : Text) → is_unsigned k ≡ false → get q k ≡ get p k)
      → IsFilled p
      → IsFilled q
  unfolding text_eq is_unsigned
  IsFilled-same same h = record {
    pid = same (codes "pid") refl ∙ h.pid;
    out_trade_no = same (codes "out_trade_no") refl ∙ h.out_trade_no;
    notify_url = same (codes "notify_url") refl ∙ h.notify_url;
    return_url = same (codes "return_url") refl ∙ h.return_url;
    name = same (codes "name") refl ∙ h.name;
    money = same (codes "money") refl ∙ h.money;
    pay_type = same (codes "type") refl ∙ h.pay_type;
    param = same (codes "param") refl ∙ h.param;
    sitename = same (codes "sitename") refl ∙ h.sitename;
    others = λ k free sign sign_type.
        same k (ground (arith, sign, sign_type)) ∙ h.others k free sign sign_type;
  }
