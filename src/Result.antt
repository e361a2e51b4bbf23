-- ===== src/Result.antt =====
-- Go's (value, error) returns. An error is its text, an *APIError of pipedrive/errors.go with the
-- upstream's answer, the text that wrapAPIError of tools/deals.go makes of one, or a *HardError of
-- tools.go around another error.
use mcp_pipedrive.Prelude.{Bool, String, if◌then◌else◌, leb, ltb, ℕ, ◌&&◌, ◌==◌}

pub record ApiError : Type 0 where
  pub status_code : ℕ
  pub status : String
  pub body : String

-- IsRateLimited
unfoldable pub is_rate_limited : ApiError → Bool
is_rate_limited e = e.status_code == 429

-- IsServerError
unfoldable pub is_server_error : ApiError → Bool
is_server_error e = leb 500 e.status_code && ltb e.status_code 600

pub data Error : Type 0 where
  message : String → Error
  api : ApiError → Error
  wrapped : ℕ → String → Error
  hard : Error → Error

pub data Result {ℓ} (Payload : Type ℓ) : Type ℓ where
  err : Error → Result Payload
  ok : Payload → Result Payload

infixl 5 ◌>>=◌ ◌>>◌
abbrev pub ◌>>=◌ {ℓ κ} :
    {From : Type ℓ} {To : Type κ} → Result From → (From → Result To) → Result To
err failure >>= next = err failure
ok payload >>= next = next payload

abbrev pub ◌>>◌ {ℓ κ} : {From : Type ℓ} {To : Type κ} → Result From → Result To → Result To
first >> second = first >>= λ payload. second

-- return an error unless the test holds
abbrev pub guard : Bool → Error → Result (Unit {0})
guard test failure = if test then ok tt else err failure
