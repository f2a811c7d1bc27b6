-- ===== src/Transport/Reqwest/Body.antt =====
-- What the transport on reqwest returns for the chunks of a response.
use epay_sdk_rust.Common.{
  ℕ, suc, ◌+◌, ◌-◌, ◌^◌, ◌≤◌, ◌<◌, ◌≡◌, refl, sym, ◌∙◌, subst, ◌↔◌, inl, inr, true, false, ◌||◌,
  Option, none, some, List, [], ◌∷◌, ◌++◌, append_assoc, append-nil, arith, ltb, Bool-cases, length,
  length-append,
}
use epay_sdk_rust.Text.{Text, Bytes}
use epay_sdk_rust.Crates.UrlCrate.{UrlCrate}
use epay_sdk_rust.Crates.Reqwest.{Reqwest, ReqwestError, done, end_of}
use epay_sdk_rust.Error.{
  Error, Result, ok, err, ◌>>=◌, transport_error, is_retryable, is_retryable_kind,
}
use epay_sdk_rust.Transport.Reqwest.{
  is_success, saturating_add, announces_more, map_reqwest_error, classify, read_chunks, with_chunk,
  check_success, read_response,
}

abbrev pub concat : List Bytes → Bytes
concat [] = []
concat (piece ∷ pieces) = piece ++ concat pieces

-- the end of a body: the failure that breaks it off, or the bytes
abbrev pub ended : Option ReqwestError → Bytes → Result Bytes
ended none body = ok body
ended (some e) body = err (map_reqwest_error e)

module _ (c : UrlCrate) (net : Reqwest c.Url) (version : Text) (limit : ℕ)
    (word : limit < 2 ^ 64 - 1) where
  open net use {World, Response, pending, breaks}

  last_chunk : (r : Response) (w : World) → pending r ≡ [] → (net.chunk r w).0 ≡ end_of (breaks r)
  last_chunk r w p = elim (net.chunk_lem r w) [
    | inl (piece, rest, left, _, _, _) ↦ cc (p, left)
    | inr (left, next) ↦ next
  ]

  next_chunk :
      (r : Response) (w : World) (piece : Bytes) (pieces : List Bytes)
      → pending r ≡ piece ∷ pieces
      → ((net.chunk r w).0 ≡ done (some piece))
        × (pending (net.chunk r w).1 ≡ pieces)
        × (breaks (net.chunk r w).1 ≡ breaks r)
  next_chunk r w piece pieces p = elim (net.chunk_lem r w) [
    | inl (piece', rest, left, next, later, broken) ↦
        (cc (p, left, next), cc (p, left, later), broken)
    | inr (left, next) ↦ cc (p, left)
  ]

  with_chunk_end :
      (o : Option ReqwestError) (body : Bytes)
      (again : Bytes → Response → World → Result Bytes × World) (r : Response) (w : World)
      → (with_chunk c net version limit body again (end_of o) r w).0 ≡ ended o body
  unfolding with_chunk
  with_chunk_end none body again r w = refl
  with_chunk_end (some e) body again r w = refl

  -- a chunk that fits is appended, and one that does not ends the loop
  with_chunk_fits :
      (body piece : Bytes) (again : Bytes → Response → World → Result Bytes × World) (r : Response)
      (w : World)
      → length body + length piece ≤ limit
      → with_chunk c net version limit body again (done (some piece)) r w
        ≡ again (body ++ piece) r w
  unfolding with_chunk saturating_add
  with_chunk_fits body piece again r w fits = ground (arith, word)

  with_chunk_over :
      (body piece : Bytes) (again : Bytes → Response → World → Result Bytes × World) (r : Response)
      (w : World)
      → limit < length body + length piece
      → (with_chunk c net version limit body again (done (some piece)) r w).0
        ≡ err (Error.response_too_large limit)
  unfolding with_chunk saturating_add
  with_chunk_over body piece again r w over = ground (arith, word)

  read_chunks_within :
      (pieces : List Bytes) (body : Bytes) (r : Response) (w : World)
      → pending r ≡ pieces
      → length (body ++ concat pieces) ≤ limit
      → (read_chunks c net version (suc (length pieces)) limit body r w).0
        ≡ ended (breaks r) (body ++ concat pieces)
  unfolding read_chunks
  read_chunks_within [] body r w p fits =
      rw (last_chunk r w p, append-nil body) (with_chunk_end (breaks r) body _ _ _)
  read_chunks_within (piece ∷ pieces) body r w p fits =
      let (next, later, broken) = next_chunk r w piece pieces p in
      let room : length body + length piece ≤ limit = ground (
        arith,
        length-append body (piece ++ concat pieces),
        length-append piece (concat pieces),
        fits,
      ) in
      let fits' : length ((body ++ piece) ++ concat pieces) ≤ limit =
        subst (λ bytes. length bytes ≤ limit) (sym (append_assoc body piece (concat pieces)))
          fits in
      let rest =
        read_chunks_within pieces (body ++ piece) (net.chunk r w).1 (net.chunk r w).2 later fits' in
      rw (
        next,
        with_chunk_fits body piece (read_chunks c net version (suc (length pieces)) limit)
            (net.chunk r w).1 (net.chunk r w).2 room,
        rest,
        broken,
        append_assoc body piece (concat pieces),
      )

  read_chunks_over :
      (pieces : List Bytes) (body : Bytes) (r : Response) (w : World)
      → pending r ≡ pieces
      → length body ≤ limit
      → limit < length (body ++ concat pieces)
      → (read_chunks c net version (suc (length pieces)) limit body r w).0
        ≡ err (Error.response_too_large limit)
  unfolding read_chunks
  read_chunks_over [] body r w p room over = ground (arith, length-append body [])
  read_chunks_over (piece ∷ pieces) body r w p room over =
      let (next, later, broken) = next_chunk r w piece pieces p in
      let over' : limit < length ((body ++ piece) ++ concat pieces) =
        subst (λ bytes. limit < length bytes) (sym (append_assoc body piece (concat pieces)))
          over in
      rw (next) (elim (Bool-cases (ltb limit (length body + length piece))) [
        | inl wide ↦
            with_chunk_over body piece (read_chunks c net version (suc (length pieces)) limit) _ _
              (ground (arith, wide))
        | inr small ↦
            let room' : length (body ++ piece) ≤ limit =
              ground (arith, small, length-append body piece) in
            let fits : length body + length piece ≤ limit = ground (arith, small) in
            rw (
              with_chunk_fits body piece (read_chunks c net version (suc (length pieces)) limit)
                  (net.chunk r w).1 (net.chunk r w).2 fits,
              read_chunks_over pieces (body ++ piece) (net.chunk r w).1 (net.chunk r w).2 later
                  room' over',
            )
      ])

  -- what `?` and the test of the status make of the bytes
  check-eq-ok :
      (broken : Option ReqwestError) (status : ℕ) (body out : Bytes)
      → ((ended broken body >>= check_success c net version status) ≡ ok out)
        ↔ ((broken ≡ none) × (is_success status ≡ true) × (out ≡ body))
  unfolding check_success
  check-eq-ok none status body out = ground arith
  check-eq-ok (some e) status body out = ground arith

  announces_more_iff :
      (o : Option ℕ)
      → (announces_more o limit ≡ false)
        ↔ ((announced : ℕ) → o ≡ some announced → announced ≤ limit)
  announces_more_iff none = (λ h announced e. cc (e), λ h. refl)
  announces_more_iff (some n) = (
    λ h announced e. (let same : n ≡ announced = cc (e) in ground (arith, h, same)),
    λ h. (let small = h n refl in ground (arith, small)),
  )

  is_success_iff : (status : ℕ) → (is_success status ≡ true) ↔ ((200 ≤ status) × (status ≤ 299))
  unfolding is_success
  is_success_iff status = ground arith

  read_response_over :
      (r : Response) (w : World)
      → limit < length (concat (pending r))
      → (read_response c net version r limit w).0 ≡ err (Error.response_too_large limit)
  unfolding read_response
  read_response_over r w over = elim (Bool-cases (announces_more (net.content_length r) limit)) [
    | inl more ↦ rw (more)
    | inr fewer ↦ rw (fewer, read_chunks_over (pending r) [] r w refl (omega arith) over)
  ]

  read_response_tests :
      (r : Response) (w : World) (out : Bytes)
      → ((read_response c net version r limit w).0 ≡ ok out) ↔ (
          (announces_more (net.content_length r) limit ≡ false)
          × (length (concat (pending r)) ≤ limit)
          × (breaks r ≡ none)
          × (is_success (net.status r) ≡ true)
          × (out ≡ concat (pending r)))
  unfolding read_response
  read_response_tests r w out =
      let all_of = concat (pending r) in
      let over = read_response_over r w in
      let inside = read_chunks_within (pending r) [] r w refl in
      let checked = check-eq-ok (breaks r) (net.status r) all_of out in
      elim (Bool-cases (announces_more (net.content_length r) limit)) [
        | inl more ↦ rw (more) (ground arith)
        | inr fewer ↦ elim (Bool-cases (ltb limit (length all_of))) [
          | inl wide ↦ (λ h. cc (h, over (ground (arith, wide))), λ a. ground (arith, wide, a.1))
          | inr small ↦
              let fits : length all_of ≤ limit = ground (arith, small) in
              let result : (read_response c net version r limit w).0
                  ≡ (ended (breaks r) all_of >>= check_success c net version (net.status r)) =
                rw (fewer, inside fits) in
              (
                λ h.
                    (let (whole, good, same) = checked.0 (sym result ∙ h) in
                      (fewer, fits, whole, good, same)),
                λ a. result ∙ checked.1 (a.2, a.3, a.4),
              )
        ]
      ]

  -- A response yields a body exactly when it announces no length or one within the limit, is not
  -- broken off, has a status from 200 to 299, and its chunks have no more bytes than the limit
  -- together; the body is then the chunks in their order. The limit is below the largest usize.
  pub read_response_iff :
      (r : Response) (w : World) (out : Bytes)
      → ((read_response c net version r limit w).0 ≡ ok out) ↔ (
          ((announced : ℕ) → net.content_length r ≡ some announced → announced ≤ limit)
          × (length (concat (pending r)) ≤ limit)
          × (breaks r ≡ none)
          × ((200 ≤ net.status r) × (net.status r ≤ 299))
          × (out ≡ concat (pending r)))
  read_response_iff r w out =
      let tests = read_response_tests r w out in
      let announced = announces_more_iff (net.content_length r) in
      let good = is_success_iff (net.status r) in
      (
        λ h.
            (let (fewer, fits, whole, success, same) = tests.0 h in
              (announced.0 fewer, fits, whole, good.0 success, same)),
        λ (fewer, fits, whole, success, same).
            tests.1 (announced.1 fewer, fits, whole, good.1 success, same),
      )

-- A failure of reqwest is retryable exactly when it is a timeout or a failed connection.
pub is_retryable-map_reqwest_error :
    (e : ReqwestError) → is_retryable (map_reqwest_error e) ≡ e.is_timeout || e.is_connect
unfolding map_reqwest_error classify is_retryable transport_error is_retryable_kind
is_retryable-map_reqwest_error e = ground arith
