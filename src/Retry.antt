-- ===== src/Retry.antt =====
-- The classification of exceptions in poolgate/services/retry.py. An exception is its class, as far
-- as the code tests it by `isinstance`, the name of its type and its `status_code`, if it has one.
pub mod Classes
use pool_gate.Common.{
  ℕ, zero, suc, ◌+◌, ◌-◌, ◌*◌, ◌^◌, ◌==◌, String, str_eq, Bool, true, false, not, ◌&&◌, ◌||◌,
  Option, none, some, List, [], ◌∷◌, if◌then◌else◌, min,
}

pub data ExceptionClass : Type 0 where
  -- `APIKeyDisabledError`, `NoAvailableAPIKeyError`, `StructuredOutputError`, `InvalidResponseError`
  key_disabled no_available_key structured_output invalid_response : ExceptionClass
  -- `httpx.ConnectError`, `httpx.TimeoutException`, `httpx.RemoteProtocolError`
  transport : ExceptionClass
  other : ExceptionClass

pub record Exception : Type 0 where
  pub class : ExceptionClass
  pub type_name : String
  pub status_code : Option ℕ

pub data ErrorCategory : Type 0 where
  transport_error provider quota validation unknown : ErrorCategory

abbrev pub is_status : List ℕ → ℕ → Bool
is_status [] code = false
is_status (c ∷ cs) code = if code == c then true else is_status cs code

-- `status in codes`, where there is a status.
abbrev pub status_in : List ℕ → Option ℕ → Bool
status_in codes none = false
status_in codes (some code) = is_status codes code

abbrev pub name_in : List String → String → Bool
name_in [] name = false
name_in (n ∷ ns) name = if str_eq name n then true else name_in ns name

abbrev pub retryable_status_codes : List ℕ
retryable_status_codes = 429 ∷ 500 ∷ 502 ∷ 503 ∷ 504 ∷ []

abbrev pub fatal_status_codes : List ℕ
fatal_status_codes = 400 ∷ 401 ∷ 403 ∷ 404 ∷ 422 ∷ []

abbrev pub retryable_names : List String
retryable_names =
    "RateLimitError" ∷ "APIStatusError" ∷ "APIConnectionError" ∷ "APITimeoutError"
    ∷ "InternalServerError" ∷ "ServiceUnavailableError" ∷ []

abbrev pub is_transport : ExceptionClass → Bool
is_transport transport = true
is_transport _ = false

-- The tests on the type's name and the last `isinstance`.
unfoldable pub retryable_by_name : Exception → Bool
retryable_by_name exc =
    if name_in retryable_names exc.type_name
    then not (status_in fatal_status_codes exc.status_code)
    else is_transport exc.class

unfoldable pub retryable_of : ExceptionClass → Exception → Bool
unfolding retryable_by_name
retryable_of key_disabled exc = false
retryable_of no_available_key exc = false
retryable_of structured_output exc = false
retryable_of invalid_response exc =
    if status_in fatal_status_codes exc.status_code
    then false
    else status_in retryable_status_codes exc.status_code
retryable_of transport exc = retryable_by_name exc
retryable_of other exc = retryable_by_name exc

-- `_is_retryable`
unfoldable pub is_retryable : Exception → Bool
unfolding retryable_of
is_retryable exc = retryable_of exc.class exc

abbrev pub is_invalid_response : ExceptionClass → Bool
is_invalid_response invalid_response = true
is_invalid_response _ = false

unfoldable pub is_rate_limit : Exception → Bool
is_rate_limit exc =
    name_in ("RateLimitError" ∷ "RateLimitExceededError" ∷ []) exc.type_name
    || (is_invalid_response exc.class && status_in (429 ∷ []) exc.status_code)

unfoldable pub is_auth_error : Exception → Bool
is_auth_error exc =
    status_in (401 ∷ 403 ∷ []) exc.status_code
    || name_in ("AuthenticationError" ∷ "PermissionDeniedError" ∷ []) exc.type_name

unfoldable pub classify_by_name : String → ErrorCategory
classify_by_name name =
    if name_in
      ("APIConnectionError" ∷ "APITimeoutError" ∷ "TimeoutException" ∷ "ConnectError"
        ∷ "RemoteProtocolError" ∷ [])
      name
    then transport_error
    else if name_in ("RateLimitError" ∷ []) name
    then quota
    else if name_in ("APIStatusError" ∷ "InternalServerError" ∷ "ServiceUnavailableError" ∷ []) name
    then provider
    else if name_in
        ("AuthenticationError" ∷ "PermissionDeniedError" ∷ "BadRequestError" ∷ "NotFoundError" ∷ [])
        name
    then validation
    else unknown

unfoldable pub classify_of : ExceptionClass → Exception → ErrorCategory
unfolding classify_by_name
classify_of key_disabled exc = quota
classify_of no_available_key exc = quota
classify_of structured_output exc = validation
classify_of invalid_response exc =
    if status_in (429 ∷ []) exc.status_code
    then quota
    else if status_in fatal_status_codes exc.status_code
    then validation
    else if status_in retryable_status_codes exc.status_code
    then provider
    else unknown
classify_of transport exc = classify_by_name exc.type_name
classify_of other exc = classify_by_name exc.type_name

-- `RetryClassifier.classify`
unfoldable pub classify : Exception → ErrorCategory
unfolding classify_of
classify exc = classify_of exc.class exc

-- `BackoffCalculator.calculate` before the jitter, in microseconds.
unfoldable pub backoff : ℕ → ℕ → ℕ → ℕ
backoff base max_backoff attempt = min max_backoff (base * 2 ^ (attempt - 1))

-- With the number that `random.uniform(0, jitter)` drew; none is drawn where there is no jitter.
unfoldable pub calculate : ℕ → ℕ → ℕ → ℕ → ℕ → ℕ
unfolding backoff
calculate base max_backoff jitter attempt drawn =
    if jitter == 0
    then backoff base max_backoff attempt
    else backoff base max_backoff attempt + drawn
