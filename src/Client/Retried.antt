-- ===== src/Client/Retried.antt =====
-- How often a GET is sent, and that the bound on the rounds is never what ends the loop.
use epay_sdk_rust.Common.{
  ℕ, zero, suc, ◌+◌, ◌≤◌, ◌<◌, max, ◌≡◌, refl, sym, ap, ◌∙◌, subst, Bool, true, false, List, [],
  ◌∷◌, ◌++◌, append_assoc, append-nil, arith, take, drop, All,
}
use epay_sdk_rust.Text.{Text, Bytes, codes}
use epay_sdk_rust.Error.{Error, Result, ok, err, ◌>>=◌, is_retryable, sanitized, transport_error}
use epay_sdk_rust.Params.{empty}
use epay_sdk_rust.Config.Retry.{Duration, RetryPolicy, backoff, should_retry}
use epay_sdk_rust.Protocol.{Packages}
use epay_sdk_rust.Transport.{Transport, TransportOptions}
use epay_sdk_rust.Transport.Mock.{
  MockInner, RecordedRequest, mock_transport, next, recorded, pop_front, within,
}
use epay_sdk_rust.Crates.SerdeJson.{SerdeJson}
use epay_sdk_rust.Client.Call.{get_loop, get_round, settle, sanitize}

module _ (pkg : Packages) (json : SerdeJson) (net : Transport pkg.urls) {R : Type 0}
    (done : Bytes → Result R) (policy : RetryPolicy) (url : pkg.urls.Url)
    (options : TransportOptions) where
  abbrev loop : ℕ → ℕ → net.World → Result R × net.World
  loop = get_loop pkg json net done policy url options

  no_retry :
      (retries : ℕ) (e : Error)
      → policy.max_retries ≤ retries
      → should_retry policy retries e ≡ false
  unfolding should_retry
  no_retry retries e h = ground arith

  abbrev settled :
      (net.World → Result R × net.World) → ℕ → Result Bytes → net.World → Result R × net.World
  settled = settle pkg json net done policy url options

  settle_last :
      (f g : net.World → Result R × net.World) (retries : ℕ) (r : Result Bytes) (w : net.World)
      → policy.max_retries ≤ retries
      → settled f retries r w ≡ settled g retries r w
  unfolding settle
  settle_last f g retries (ok body) w h = refl
  settle_last f g retries (err e) w h = ground (arith, no_retry retries e h)

  settle_ext :
      (f g : net.World → Result R × net.World) (retries : ℕ) (r : Result Bytes) (w : net.World)
      → ((w₁ : net.World) → f w₁ ≡ g w₁)
      → settled f retries r w ≡ settled g retries r w
  unfolding settle
  settle_ext f g retries (ok body) w h = refl
  settle_ext f g retries (err e) w h =
      ground (arith, h (net.sleep (backoff policy (suc retries)) w))

  -- The loop of a GET ends because the policy refuses another retry, and never because the bound on
  -- its rounds runs out: every bound that is at least the number of retries left gives the same
  -- result and the same requests.
  pub get_loop-enough :
      (left more retries : ℕ) (w : net.World)
      → policy.max_retries ≤ retries + left
      → policy.max_retries ≤ retries + more
      → loop left retries w ≡ loop more retries w
  unfolding get_loop get_round
  get_loop-enough zero zero retries w h k = refl
  get_loop-enough zero (suc more) retries w h k = settle_last _ _ retries _ _ (omega arith)
  get_loop-enough (suc left) zero retries w h k = settle_last _ _ retries _ _ (omega arith)
  get_loop-enough (suc left) (suc more) retries w h k =
      settle_ext _ _ retries _ _
        λ w₁. get_loop-enough left more (suc retries) w₁ (omega arith) (omega arith)

-- the delays before the retries `from + 1` to `from + n`
abbrev pub delays : RetryPolicy → ℕ → ℕ → List Duration
delays policy from zero = []
delays policy from (suc n) = backoff policy (suc from) ∷ delays policy (suc from) n

abbrev pub copies {ℓ} : {A : Type ℓ} → ℕ → A → List A
copies zero a = []
copies (suc n) a = a ∷ copies n a

-- a scripted response that is a failure worth another attempt
abbrev pub IsTransient : Result Bytes → Type 0
IsTransient r = (e : Error) × (r ≡ err e) × (is_retryable (sanitized e) ≡ true)

module _ (pkg : Packages) (json : SerdeJson) (query_pairs : pkg.urls.Url → List (Text × Text))
    {R : Type 0} (done : Bytes → Result R) (policy : RetryPolicy) (url : pkg.urls.Url)
    (options : TransportOptions) where
  abbrev mock_loop : ℕ → ℕ → MockInner → Result R × MockInner
  mock_loop = get_loop pkg json (mock_transport pkg.urls query_pairs) done policy url options

  abbrev pub request : RecordedRequest
  request = recorded pkg.urls query_pairs (codes "GET") url empty options

  -- What the loop did to the scripted transport: with `n` retries, `n + 1` times the one request, and
  -- the delays of the policy between them; each attempt but the last was a transient failure.
  pub record IsRun (retries : ℕ) (before after : MockInner) : Type 0 where
    pub n : ℕ
    pub bounded : n + retries ≤ max policy.max_retries retries
    pub requests : after.requests ≡ before.requests ++ copies (suc n) request
    pub sleeps : after.sleeps ≡ before.sleeps ++ delays policy retries n
    pub transient : All IsTransient (take n before.responses)
    pub responses : after.responses ≡ drop (suc n) before.responses

  -- the transport after one request
  abbrev asked : MockInner → MockInner
  asked mock = (next pkg.urls query_pairs (codes "GET") url empty options mock).1

  -- what the request was answered with
  abbrev answer : MockInner → Result Bytes
  answer mock = (next pkg.urls query_pairs (codes "GET") url empty options mock).0

  popped : (rs : List (Result Bytes)) → (pop_front rs).1 ≡ drop 1 rs
  unfolding pop_front
  popped [] = refl
  popped (r ∷ rs) = refl

  stop : (retries : ℕ) (mock : MockInner) → IsRun retries mock (asked mock)
  unfolding next pop_front
  stop retries mock = record {
    n = 0;
    bounded = omega arith;
    requests = refl;
    sleeps = sym (append-nil mock.sleeps);
    transient = tt;
    responses = popped mock.responses;
  }

  abbrev slept : ℕ → MockInner → MockInner
  slept retries mock = record mock { sleeps = mock.sleeps ++ backoff policy (suc retries) ∷ [] }

  retryable_of :
      (retries : ℕ) (e : Error)
      → should_retry policy retries e ≡ true
      → (retries < policy.max_retries) × (is_retryable e ≡ true)
  unfolding should_retry
  retryable_of retries e h = ground arith

  pop_front-IsTransient :
      (rs : List (Result Bytes)) (e : Error)
      → sanitize ((pop_front rs).0 >>= within options) ≡ err e
      → is_retryable e ≡ true
      → (r : Result Bytes) × (rest : List (Result Bytes)) × (rs ≡ r ∷ rest) × IsTransient r
  unfolding pop_front sanitize within sanitized is_retryable transport_error
  pop_front-IsTransient [] e h k = ground arith
  pop_front-IsTransient (err e' ∷ rs) e h k = (err e', rs, refl, (e', refl, ground arith))
  pop_front-IsTransient (ok body ∷ rs) e h k = ground arith

  again :
      (retries : ℕ) (mock after : MockInner) (e : Error)
      → sanitize (answer mock) ≡ err e
      → should_retry policy retries e ≡ true
      → IsRun (suc retries) (slept retries (asked mock)) after
      → IsRun retries mock after
  unfolding next
  again retries mock after e h k r =
      let (room, worth) = retryable_of retries e k in
      let (first, rest, shape, transient) = pop_front-IsTransient mock.responses e h worth in
      let left : (pop_front mock.responses).1 ≡ rest = popped mock.responses ∙ ap (drop 1) shape in
      record {
        n = suc r.n;
        bounded = omega (arith, r.bounded);
        requests = r.requests ∙ append_assoc mock.requests (request ∷ []) _;
        sleeps = r.sleeps ∙ append_assoc mock.sleeps (backoff policy (suc retries) ∷ []) _;
        transient =
            subst (λ rs. All IsTransient (take (suc r.n) rs)) (sym shape)
              (transient, subst (λ rs. All IsTransient (take r.n rs)) left r.transient);
        responses =
            r.responses ∙ ap (drop (suc r.n)) left ∙ ap (λ rs. drop (suc (suc r.n)) rs) (sym shape);
      }

  branch_run :
      (b : Bool) (stopped continued : Result R × MockInner) (retries : ℕ) (mock : MockInner)
      → IsRun retries mock stopped.1
      → (b ≡ true → IsRun retries mock continued.1)
      → IsRun retries mock
          (elim b as (λ x. Result R × MockInner) [ false ↦ stopped | true ↦ continued ]).1
  branch_run true stopped continued retries mock s c = c refl
  branch_run false stopped continued retries mock s c = s

  settle_run :
      (f : MockInner → Result R × MockInner) (retries : ℕ) (mock : MockInner) (r : Result Bytes)
      → sanitize (answer mock) ≡ r
      → ((e : Error)
          → should_retry policy retries e ≡ true
          → IsRun (suc retries) (slept retries (asked mock)) (f (slept retries (asked mock))).1)
      → IsRun retries mock
          (settle pkg json
            (mock_transport pkg.urls query_pairs)
            done
            policy
            url
            options
            f
            retries
            r
            (asked mock)).1
  unfolding settle
  settle_run f retries mock (ok body) h rec = stop retries mock
  settle_run f retries mock (err e) h rec =
      branch_run (should_retry policy retries e) (err e, asked mock)
        (f (slept retries (asked mock))) retries mock (stop retries mock)
        λ k. again retries mock _ e h k (rec e k)

  run :
      (left retries : ℕ) (mock : MockInner)
      → policy.max_retries ≤ retries + left
      → IsRun retries mock (mock_loop left retries mock).1
  unfolding get_loop get_round
  run zero retries mock bound =
      settle_run _ retries mock _ refl λ e k. ground (arith, retryable_of retries e k)
  run (suc left) retries mock bound =
      settle_run _ retries mock _ refl
        λ e k. run left (suc retries) (slept retries (asked mock)) (omega arith)

  -- A GET against the scripted transport sends the same request once, and once more for each retry:
  -- at most `max_retries` retries, each after the delay that the policy gives for its number, and
  -- each only after an answer that is a transient failure. Nothing else is sent or waited for.
  pub get_loop-IsRun : (mock : MockInner) → IsRun 0 mock (mock_loop policy.max_retries 0 mock).1
  get_loop-IsRun mock = run policy.max_retries 0 mock (omega arith)
