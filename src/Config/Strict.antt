-- ===== src/Config/Strict.antt =====
-- The guarantees of a validated configuration.
use epay_sdk_rust.Common.{
  ◌≡◌, refl, ap, ◌∙◌, subst, ◌≢◌, ◌⊎◌, Bool, true, false, Option, none, some, [], ◌++◌, arith, ◌==◌,
  is_nil, eq_nil,
}
use epay_sdk_rust.Text.{Text, codes, trim, trim_end_matches}
use epay_sdk_rust.Text.Laws.{text_eq_iff}
use epay_sdk_rust.Crates.UrlCrate.{UrlCrate}
use epay_sdk_rust.Error.{Error, ok, ok_or, >>=-eq-ok, guard-eq-ok, ok-injective}
use epay_sdk_rust.Error.Codes.{
  invalid_pid, invalid_key, invalid_api_url, invalid_notify_url, invalid_return_url,
  insecure_notify_url, insecure_return_url,
}
use epay_sdk_rust.Config.{
  ConfigParts, is_some, Config, require_https_callback, is_callback_url, parse_callback_url,
  validate_api_scheme, has_extras, validate_api_base_url, normalized_path, callback_default,
  from_parts,
}

module _ (c : UrlCrate) where
  open c use {Url, scheme, username, password, host_str, path, query, fragment}

  abbrev pub IsHttps : Url → Type 0
  IsHttps url = scheme url ≡ codes "https"

  abbrev pub IsHttp : Url → Type 0
  IsHttp url = scheme url ≡ codes "http"

  -- A gateway address: HTTPS, or HTTP where that is allowed, with a host, no user, password, query
  -- or fragment, and a path that ends in a slash.
  pub record IsGateway (allow_http : Bool) (url : Url) : Type 0 where
    pub secure : IsHttps url ⊎ (IsHttp url × (allow_http ≡ true))
    pub has_host : is_some (host_str url) ≡ true
    pub no_user : username url ≡ []
    pub no_password : is_some (password url) ≡ false
    pub no_query : is_some (query url) ≡ false
    pub no_fragment : is_some (fragment url) ≡ false

  -- A callback address: HTTPS, or HTTP where that is allowed, with a host, no user, password or
  -- fragment.
  pub record IsCallback (allow_http : Bool) (url : Url) : Type 0 where
    pub secure : IsHttps url ⊎ (IsHttp url × (allow_http ≡ true))
    pub has_host : is_some (host_str url) ≡ true
    pub no_user : username url ≡ []
    pub no_password : is_some (password url) ≡ false
    pub no_fragment : is_some (fragment url) ≡ false

  pub validate_api_base_url-IsGateway :
      (url : Url) (allow : Bool) → validate_api_base_url c url allow ≡ ok tt → IsGateway allow url
  unfolding validate_api_base_url validate_api_scheme has_extras
  validate_api_base_url-IsGateway url allow h = ground (
    arith,
    text_eq_iff (scheme url) (codes "https"),
    text_eq_iff (scheme url) (codes "http"),
    eq_nil (username url),
  )

  pub parse_callback_url-IsCallback :
      (raw : Text) (allow : Bool) (invalid insecure : Error) (url : Url)
      → parse_callback_url c raw invalid ≡ ok url
      → require_https_callback c url allow insecure ≡ ok tt
      → IsCallback allow url
  unfolding parse_callback_url require_https_callback is_callback_url
  parse_callback_url-IsCallback raw allow invalid insecure url h k = ground (
    arith,
    text_eq_iff (scheme url) (codes "https"),
    text_eq_iff (scheme url) (codes "http"),
    eq_nil (username url),
  )

  -- What `from_parts` promises of its result.
  pub record IsStrict (parts : ConfigParts) (config : Config c) : Type 0 where
    pub pid_kept : config.pid ≡ parts.pid
    pub pid_positive : config.pid ≢ 0
    pub key_kept : config.key ≡ parts.key
    pub key_filled : is_nil config.key ≡ false
    pub gateway : IsGateway parts.allow_insecure_http config.api_base_url
    pub ends_in_slash : (dir : Text) × (path config.api_base_url ≡ dir ++ codes "/")
    pub notify_strict :
        (url : Url)
        → config.notify_url ≡ some url
        → IsCallback parts.allow_insecure_callback_http url
    pub return_strict :
        (url : Url)
        → config.return_url ≡ some url
        → IsCallback parts.allow_insecure_callback_http url

  callback_default-IsCallback :
      (o : Option Text) (allow : Bool) (invalid insecure : Error) (r : Option Url)
      → callback_default c o allow invalid insecure ≡ ok r
      → (url : Url) → r ≡ some url
      → IsCallback allow url
  unfolding callback_default
  callback_default-IsCallback none allow invalid insecure r h url e = ground arith
  callback_default-IsCallback (some raw) allow invalid insecure r h url e =
      let (u, parsed, h') = >>=-eq-ok (parse_callback_url c raw invalid) _ h in
      let (v, secure, h'') = >>=-eq-ok (require_https_callback c u allow insecure) _ h' in
      subst (IsCallback allow) (cc)
        (parse_callback_url-IsCallback raw allow invalid insecure u parsed secure)

  IsGateway-set_path :
      (p : Text) (allow : Bool) (url : Url)
      → IsGateway allow url
      → IsGateway allow (c.set_path p url)
  IsGateway-set_path p allow url g = record {
    secure = rw (c.scheme-set_path p url) g.secure;
    has_host = rw (c.host_str-set_path p url) g.has_host;
    no_user = rw (c.username-set_path p url) g.no_user;
    no_password = rw (c.password-set_path p url) g.no_password;
    no_query = rw (c.query-set_path p url) g.no_query;
    no_fragment = rw (c.fragment-set_path p url) g.no_fragment;
  }

  scheme_known : (allow : Bool) (url : Url) → IsGateway allow url → IsHttps url ⊎ IsHttp url
  scheme_known allow url g = ground (arith, g.secure)

  normalized_path-eq :
      (url : Url) → normalized_path c url ≡ trim_end_matches (path url) b'/' ++ codes "/"
  unfolding normalized_path
  normalized_path-eq url = ground (arith, eq_nil (trim_end_matches (path url) b'/'))

  -- A configuration that is built has a positive PID, a key, a gateway address that is HTTPS unless
  -- plain HTTP was allowed, carries no credentials, query or fragment and ends in a slash, and
  -- callback defaults that are HTTPS unless plain HTTP was allowed for them.
  pub from_parts-IsStrict :
      (parts : ConfigParts) (config : Config c)
      → from_parts c parts ≡ ok config
      → IsStrict parts config
  unfolding from_parts
  from_parts-IsStrict parts config h =
      let (positive, h1) = guard-eq-ok (parts.pid == 0) invalid_pid _ h in
      let (filled, h2) = guard-eq-ok (is_nil parts.key) invalid_key _ h1 in
      let (base, parsed, h3) =
        >>=-eq-ok (ok_or (c.parse (trim parts.api_base_url)) invalid_api_url) _ h2 in
      let (u, valid, h4) =
        >>=-eq-ok (validate_api_base_url c base parts.allow_insecure_http) _ h3 in
      let (notify, notify_ok, h5) =
        >>=-eq-ok
          (callback_default c parts.notify_url parts.allow_insecure_callback_http invalid_notify_url
            insecure_notify_url)
          _ h4 in
      let (return, return_ok, h6) =
        >>=-eq-ok
          (callback_default c parts.return_url parts.allow_insecure_callback_http invalid_return_url
            insecure_return_url)
          _ h5 in
      let same = ok-injective h6 in
      let g = validate_api_base_url-IsGateway base parts.allow_insecure_http valid in
      subst (IsStrict parts) same (record {
        pid_kept = refl;
        pid_positive = ground arith;
        key_kept = refl;
        key_filled = filled;
        gateway = IsGateway-set_path _ _ base g;
        ends_in_slash = (
          trim_end_matches (path base) b'/',
          ap (λ p. path (c.set_path p base)) (normalized_path-eq base)
              ∙ c.path-set_path base (scheme_known _ base g),
        );
        notify_strict =
            callback_default-IsCallback parts.notify_url _ invalid_notify_url insecure_notify_url
              notify notify_ok;
        return_strict =
            callback_default-IsCallback parts.return_url _ invalid_return_url insecure_return_url
              return return_ok;
      })
