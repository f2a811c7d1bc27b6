-- ===== src/Crates/UrlCrate.antt =====
-- The package `url`: what the library uses of `Url`.
pub mod Toy
use epay_sdk_rust.Common.{◌≡◌, ◌⊎◌, Option, some, ◌++◌}
use epay_sdk_rust.Text.{Text, codes, trim_end_matches}

pub record UrlCrate : Type 1 where
  pub Url : Type 0
  pub parse : Text → Option Url
  pub as_str : Url → Text
  pub scheme : Url → Text
  pub username : Url → Text
  pub password : Url → Option Text
  pub host_str : Url → Option Text
  pub path : Url → Text
  pub query : Url → Option Text
  pub fragment : Url → Option Text
  pub set_path : Text → Url → Url
  pub set_query : Option Text → Url → Url
  pub join : Url → Text → Option Url
  -- setting a path or a query leaves the other components alone
  pub scheme-set_path : (p : Text) (u : Url) → scheme (set_path p u) ≡ scheme u
  pub username-set_path : (p : Text) (u : Url) → username (set_path p u) ≡ username u
  pub password-set_path : (p : Text) (u : Url) → password (set_path p u) ≡ password u
  pub host_str-set_path : (p : Text) (u : Url) → host_str (set_path p u) ≡ host_str u
  pub query-set_path : (p : Text) (u : Url) → query (set_path p u) ≡ query u
  pub fragment-set_path : (p : Text) (u : Url) → fragment (set_path p u) ≡ fragment u
  -- an encoded path of a web address is kept when only its trailing slashes change
  pub path-set_path :
      (u : Url)
      → (scheme u ≡ codes "https") ⊎ (scheme u ≡ codes "http")
      → path (set_path (trim_end_matches (path u) b'/' ++ codes "/") u)
        ≡ trim_end_matches (path u) b'/' ++ codes "/"
  -- setting a query replaces the one that is there
  pub set_query-set_query :
      (q r : Option Text) (u : Url) → set_query q (set_query r u) ≡ set_query q u
  pub query-set_query : (q : Text) (u : Url) → (r : Text) × (query (set_query (some q) u) ≡ some r)
