-- ===== src/Crates/UrlCrate/Toy.antt =====
-- A small instance of the interface to `url`: `scheme://host/path?query`, with no escapes, no
-- user and no fragment.
use epay_sdk_rust.Common.{
  ℕ, refl, Bool, ◌||◌, Option, none, some, [], ◌∷◌, ◌++◌, ◌==◌, if◌then◌else◌, is_nil,
}
use epay_sdk_rust.Text.{Text, codes, strip_prefix}
use epay_sdk_rust.Crates.UrlCrate.{UrlCrate}

pub record ToyUrl : Type 0 where
  pub scheme_part : Text
  pub host_part : Text
  pub path_part : Text
  pub query_part : Option Text

-- the text up to the first of some characters, and the rest from there on
unfoldable pub span : (ℕ → Bool) → Text → Text × Text
span stop [] = ([], [])
span stop (c ∷ s) =
    let (before, rest) = span stop s in if stop c then ([], c ∷ s) else (c ∷ before, rest)

unfoldable pub parse_query : Text → Option Text
parse_query [] = none
parse_query (c ∷ s) = some s

unfoldable pub parse_after_scheme : Text → Text → Option ToyUrl
unfolding span parse_query
parse_after_scheme name rest =
    let (host, behind) = span (λ c. c == b'/' || c == b'?') rest in
    let (dir, query) = span (λ c. c == b'?') behind in
    if is_nil host
    then none
    else some (record {
      scheme_part = name;
      host_part = host;
      path_part = if is_nil dir then codes "/" else dir;
      query_part = parse_query query;
    })

unfoldable pub parse_toy : Text → Option ToyUrl
unfolding parse_after_scheme strip_prefix
parse_toy s = elim (strip_prefix s (codes "https://")) [
  | some rest ↦ parse_after_scheme (codes "https") rest
  | none ↦ elim (strip_prefix s (codes "http://")) [
    | some rest ↦ parse_after_scheme (codes "http") rest
    | none ↦ none
  ]
]

unfoldable pub toy_as_str : ToyUrl → Text
toy_as_str u =
    u.scheme_part
    ++ codes "://"
    ++ u.host_part
    ++ u.path_part
    ++ elim u.query_part [ none ↦ [] | some q ↦ b'?' ∷ q ]

unfoldable pub toy_url : UrlCrate
unfolding parse_toy toy_as_str
toy_url = record {
  Url = ToyUrl;
  parse = parse_toy;
  as_str = toy_as_str;
  scheme = λ u. u.scheme_part;
  username = λ u. [];
  password = λ u. none;
  host_str = λ u. some u.host_part;
  path = λ u. u.path_part;
  query = λ u. u.query_part;
  fragment = λ u. none;
  set_path = λ p u. record u { path_part = p };
  set_query = λ q u. record u { query_part = q };
  join = λ u s. some (record u { path_part = u.path_part ++ s; query_part = none });
  scheme-set_path = λ p u. refl;
  username-set_path = λ p u. refl;
  password-set_path = λ p u. refl;
  host_str-set_path = λ p u. refl;
  query-set_path = λ p u. refl;
  fragment-set_path = λ p u. refl;
  path-set_path = λ u h. refl;
  set_query-set_query = λ q r u. refl;
  query-set_query = λ q u. (q, refl);
}
