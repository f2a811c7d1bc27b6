-- ===== src/Notify/Limits.antt =====
-- The bounds on what the parser builds.
use epay_sdk_rust.Common.{
  ℕ, ◌+◌, ◌≤◌, ◌≡◌, refl, ◌∙◌, subst, false, Option, none, some, List, [], ◌∷◌, ◌++◌, append_assoc,
  append-nil, arith, ltb, leb, length, is_nil, length-append, All,
}
use epay_sdk_rust.Text.{Text, split}
use epay_sdk_rust.Crates.Percent.{PercentDecode}
use epay_sdk_rust.Error.{ok, >>=-eq-ok, guard-eq-ok, ok-injective}
use epay_sdk_rust.Notify.{
  NotifyLimits, NotifySource, RawNotifyEntry, parse_pair, parse_pairs, parse_source,
  parse_raw_with_limits, encoded_len, decode_component,
}

-- an entry of the parser: its name is not empty, and it comes from that source
abbrev pub IsEntry : NotifySource → RawNotifyEntry → Type 0
IsEntry source e = (is_nil e.key ≡ false) × (e.source ≡ source)

module _ (p : PercentDecode) where
  parse_pair-IsEntry :
      (source : NotifySource) (pair : Text) (e : RawNotifyEntry)
      → parse_pair p source pair ≡ ok e
      → IsEntry source e
  unfolding parse_pair
  parse_pair-IsEntry source pair e h =
      let (key, k_ok, h1) = >>=-eq-ok (decode_component p _) _ h in
      let (filled, h2) = guard-eq-ok (is_nil key) _ _ h1 in
      let (value, v_ok, h3) = >>=-eq-ok (decode_component p _) _ h2 in
      subst (IsEntry source) (ok-injective h3) (filled, refl)

  -- what the loop adds behind the entries that are there
  parse_pairs_adds :
      (source : NotifySource) (most : ℕ) (pairs : List Text) (entries out : List RawNotifyEntry)
      → length entries ≤ most
      → parse_pairs p source most pairs entries ≡ ok out
      → (added : List RawNotifyEntry) × (out ≡ entries ++ added)
        × (length out ≤ most)
        × (length added ≤ length pairs)
        × All (IsEntry source) added
  unfolding parse_pairs
  parse_pairs_adds source most [] entries out fits h =
      ([], ground (arith, append-nil entries), ground arith, ground arith, tt)
  parse_pairs_adds source most ([] ∷ pairs) entries out fits h =
      let (added, e, size, few, good) = parse_pairs_adds source most pairs entries out fits h in
      (added, e, size, omega arith, good)
  parse_pairs_adds source most ((c ∷ pair) ∷ pairs) entries out fits h =
      let (room, h1) = guard-eq-ok (leb most (length entries)) _ _ h in
      let (entry, entry_ok, h2) = >>=-eq-ok (parse_pair p source (c ∷ pair)) _ h1 in
      let fits' : length (entries ++ entry ∷ []) ≤ most =
        ground (arith, length-append entries (entry ∷ []), room) in
      let (added, e, size, few, good) =
        parse_pairs_adds source most pairs (entries ++ entry ∷ []) out fits' h2 in
      (
        entry ∷ added,
        e ∙ append_assoc entries (entry ∷ []) added,
        size,
        omega arith,
        (parse_pair-IsEntry source (c ∷ pair) entry entry_ok, good),
      )

  parse_source_adds :
      (o : Option Text) (source : NotifySource) (most : ℕ) (entries out : List RawNotifyEntry)
      → length entries ≤ most
      → parse_source p o source most entries ≡ ok out
      → (added : List RawNotifyEntry) × (out ≡ entries ++ added)
        × (length out ≤ most)
        × All (IsEntry source) added
  unfolding parse_source
  parse_source_adds none source most entries out fits h =
      ([], ground (arith, append-nil entries), ground arith, tt)
  parse_source_adds (some []) source most entries out fits h =
      ([], ground (arith, append-nil entries), ground arith, tt)
  parse_source_adds (some (c ∷ s)) source most entries out fits h =
      let (added, e, size, few, good) =
        parse_pairs_adds source most (split (c ∷ s) b'&') entries out fits h in
      (added, e, size, good)

  -- The parser's result is bounded by the limits: the input was within the byte limit, there are at
  -- most `max_fields` entries, and they are the query's, then the form's, none with an empty name.
  pub parse_raw_bounds :
      (q body : Option Text) (limits : NotifyLimits) (out : List RawNotifyEntry)
      → parse_raw_with_limits p q body limits ≡ ok out
      → (encoded_len q + encoded_len body ≤ limits.max_encoded_bytes)
        × (length out ≤ limits.max_fields)
        × ((from_query : List RawNotifyEntry) × (from_form : List RawNotifyEntry) × (out
              ≡ from_query ++ from_form)
            × All (IsEntry NotifySource.query) from_query
            × All (IsEntry NotifySource.form) from_form)
  unfolding parse_raw_with_limits
  parse_raw_bounds q body limits out h =
      let (small, h1) =
        guard-eq-ok (ltb limits.max_encoded_bytes (encoded_len q + encoded_len body)) _ _ h in
      let (entries, e_ok, h2) =
        >>=-eq-ok (parse_source p q NotifySource.query limits.max_fields []) _ h1 in
      let (first, e1, size1, good1) =
        parse_source_adds q NotifySource.query limits.max_fields [] entries (omega arith) e_ok in
      let (second, e2, size2, good2) =
        parse_source_adds body NotifySource.form limits.max_fields entries out size1 h2 in
      (ground (arith, small), size2, (first, second, cc (e1, e2), good1, good2))
