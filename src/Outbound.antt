-- ===== src/Outbound.antt =====
-- Delivery to the vendor (internal/adapters/outbound.go): ForwardPayload and forwardWithRetry.
pub mod Laws
use edge_gw_project.Prelude.{
  ℕ, zero, suc, ◌+◌, ◌-◌, ◌*◌, ◌^◌, Bool, true, false, not, ◌&&◌, ◌||◌, Option, none, some, ◌++◌,
  Text, codes,
}
use edge_gw_project.Prelude.{[], ◌∷◌, leb, ltb, ◌==◌, is_empty, if◌then◌else◌}

-- An error of one attempt, by its message, and of the attempts together.
pub data ForwardError : Type 0 where
  no_destination : ForwardError
  no_api_key : ForwardError
  no_hmac_secret : ForwardError
  bad_request : ForwardError
  send_failed : ForwardError
  rejected : ℕ → ForwardError
  not_accepted : ℕ → ForwardError
  cancelled_before_retry : ℕ → ForwardError
  all_attempts_failed : ℕ → ForwardError → ForwardError

-- IsPermanent: `errors.As` looks through the wrapping of the last error. A cancellation wraps
-- the context's error.
unfoldable pub is_permanent : ForwardError → Bool
is_permanent no_destination = true
is_permanent no_api_key = true
is_permanent no_hmac_secret = true
is_permanent bad_request = true
is_permanent send_failed = false
is_permanent (rejected status) = true
is_permanent (not_accepted status) = false
is_permanent (cancelled_before_retry i) = false
is_permanent (all_attempts_failed n e) = is_permanent e

-- The configuration and the environment that ForwardPayload reads.
pub record Vendor : Type 0 where
  pub hub_endpoint_url : Text
  pub config_api_key : Text
  pub env_api_key : Text
  pub hmac_secret : Text

-- A request: where it goes, its Authorization and X-Intel-Signature headers, and its body.
pub record Request : Type 0 where
  pub url : Text
  pub authorization : Text
  pub signature : Text
  pub body : Text

-- The switch on the status of the response.
unfoldable pub classify : ℕ → Option ForwardError
classify status =
    if status == 200 || status == 201
    then none
    else if leb 400 status && ltb status 500 && not (status == 429)
    then some (rejected status)
    else some (not_accepted status)

abbrev pub or_text : Text → Text → Text
or_text [] d = d
or_text (c ∷ s) d = c ∷ s

-- The vendor's platform: `builds` is whether `http.NewRequestWithContext` accepts the URL, `send`
-- the answer of the client with the platform's new state, a status or no response at all.
module _ {P : Type 0} (hmac_hex : Text → Text → Text) (builds : Text → Bool)
    (send : Request → P → Option ℕ × P) where
  -- SignPayload
  unfoldable pub sign_payload : Text → Text → Text
  sign_payload payload secret = hmac_hex secret payload

  unfoldable pub answer_of : Option ℕ × P → Option ForwardError × P
  answer_of (none, p) = (some send_failed, p)
  answer_of (some status, p) = (classify status, p)

  -- The request that ForwardPayload builds.
  unfoldable pub request_of : Vendor → Text → Request
  request_of v payload = record {
    url = v.hub_endpoint_url;
    authorization = codes "Bearer " ++ or_text v.config_api_key v.env_api_key;
    signature = sign_payload payload v.hmac_secret;
    body = payload;
  }

  -- ForwardPayload
  unfoldable pub forward_payload : Vendor → Text → P → Option ForwardError × P
  forward_payload v payload p =
      if is_empty v.hub_endpoint_url
      then (some no_destination, p)
      else if is_empty (or_text v.config_api_key v.env_api_key)
      then (some no_api_key, p)
      else if is_empty v.hmac_secret
      then (some no_hmac_secret, p)
      else if not (builds v.hub_endpoint_url)
      then (some bad_request, p)
      else answer_of (send (request_of v payload) p)

-- The backoff before attempt `i` (from 1), in milliseconds.
unfoldable pub backoff_before : ℕ → ℕ
backoff_before i = 250 * 2 ^ (i - 1)

-- The outcome of a run of attempts: the error, the state, the attempts made and the
-- milliseconds waited.
pub record Tried (S : Type 0) : Type 0 where
  pub error : Option ForwardError
  pub state : S
  pub attempts : ℕ
  pub waited : ℕ

module _ {S : Type 0} (attempt : S → Option ForwardError × S) (is_cancelled : ℕ → Bool) where
  -- What follows the answer of attempt `i`, the rest of the loop given. The counter
  -- signals_forwarded, which a success moves, is left out.
  unfoldable pub after_attempt :
      ℕ → Option ForwardError × S → ℕ → ℕ → (ForwardError → S → Tried S) → Tried S
  after_attempt i (none, s) tried waited rest = record {
    error = none;
    state = s;
    attempts = suc tried;
    waited = waited;
  }
  after_attempt i (some e, s) tried waited rest = elim (is_permanent e) [
    | true ↦ record { error = some e; state = s; attempts = suc tried; waited = waited }
    | false ↦ rest e s
  ]

  -- The loop from attempt `i`, with `left` attempts still allowed, the last error, the attempts
  -- made and the time waited so far. `is_cancelled i` is whether the context ends during the wait
  -- before attempt `i`.
  unfoldable pub retry_from : ℕ → ℕ → ℕ → ForwardError → S → ℕ → Tried S
  retry_from max i zero last s waited = record {
    error = some (all_attempts_failed (max + 1) last);
    state = s;
    attempts = i;
    waited = waited;
  }
  retry_from max i (suc left) last s waited = elim (is_cancelled i) [
    | true ↦ record {
      error = some (cancelled_before_retry i);
      state = s;
      attempts = i;
      waited = waited;
    }
    | false ↦
        after_attempt i (attempt s) i (waited + backoff_before i)
          (λ e s'. retry_from max (suc i) left e s' (waited + backoff_before i))
  ]

  -- forwardWithRetry
  unfoldable pub forward_with_retry : ℕ → S → Tried S
  forward_with_retry max s = after_attempt 0 (attempt s) 0 0 (λ e s'. retry_from max 1 max e s' 0)
