-- ===== src/Config/Env.antt =====
-- config.rs, `mod env`: reading settings from environment variables.
use epay_sdk_rust.Common.{Bool, true, false, ◌||◌, Option, none, some, if◌then◌else◌, is_nil}
use epay_sdk_rust.Text.{Text, codes, text_eq, trim, to_ascii_lowercase}
use epay_sdk_rust.Error.{Error, Result, ok, err}

-- `std::env::var`: present, absent, or not UTF-8
pub data Var : Type 0 where
  value : Text → Var
  not_present : Var
  not_unicode : Var

abbrev pub Lookup : Type 0
Lookup = Text → Var

-- `lookup(name).ok().filter(|value| !value.is_empty())`
unfoldable pub optional : Lookup → Text → Option Text
optional lookup name = elim (lookup name) [ value v ↦ if is_nil v then none else some v | _ ↦ none ]

unfoldable pub required : Lookup → Text → Text → Result Text
unfolding optional
required lookup name message = elim (optional lookup name) [
  | none ↦ err (Error.config message)
  | some v ↦ ok v
]

unfoldable pub typed : Lookup → Text → Text → Result (Option Text)
typed lookup name message = elim (lookup name) [
  | value v ↦ if is_nil v then err (Error.config message) else ok (some v)
  | not_present ↦ ok none
  | not_unicode ↦ err (Error.config message)
]

-- `parse_bool`
unfoldable pub parse_bool : Text → Text → Result Bool
parse_bool v message =
    let word = to_ascii_lowercase (trim v) in
    if text_eq word (codes "1") || text_eq word (codes "true") || text_eq word (codes "yes")
    then ok true
    else if text_eq word (codes "0") || text_eq word (codes "false") || text_eq word (codes "no")
    then ok false
    else err (Error.config message)
