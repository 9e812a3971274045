-- ===== src/Auth.antt =====
-- saas/backend/app/auth.py: one-time codes and sessions. The random code and token, the hash, the
-- mail server's answer and the clock are arguments.
pub mod Codes
pub mod Sessions
pub mod Requests
use nebius_serverless_challe.Prelude.{
  ℕ, ◌+◌, ◌*◌, Text, Bool, not, Option, none, some, [], ltb, ◌==◌, if◌then◌else◌,
}
use nebius_serverless_challe.Models.{PendingCode, Session}
use nebius_serverless_challe.Store.Auth.{
  AuthState, allow_code_request, set_code, get_code, delete_code, bump_attempts, ensure_user,
  put_session, get_session, delete_session,
}

-- CODE_TTL_SECONDS
abbrev pub code_ttl_seconds : ℕ
code_ttl_seconds = 10 * 60

-- MAX_VERIFY_ATTEMPTS
abbrev pub max_verify_attempts : ℕ
max_verify_attempts = 5

-- RATE_LIMIT_REQUESTS
abbrev pub rate_limit_requests : ℕ
rate_limit_requests = 5

-- RATE_LIMIT_WINDOW_SECONDS
abbrev pub rate_limit_window_seconds : ℕ
rate_limit_window_seconds = 15 * 60

-- How `request_code` ends: it returns, or raises `RateLimited` or `EmailDeliveryError`.
pub data RequestOutcome : Type 0 where
  sent rate_limited delivery_error : RequestOutcome

-- `delivered` says whether `send_code` returns; `now` and `issued_at` are the two readings of the
-- clock.
unfoldable pub request_code : Text → Text → Bool → ℕ → ℕ → AuthState → RequestOutcome × AuthState
unfolding allow_code_request set_code delete_code
request_code email code_hash delivered now issued_at s =
    let (allowed, s') =
      allow_code_request email rate_limit_requests rate_limit_window_seconds now s in
    let code : PendingCode = record {
      code_hash = code_hash;
      expires_at = issued_at + code_ttl_seconds;
      attempts = 0;
    } in
    let stored = set_code email code s' in
    if not allowed
    then (rate_limited, s')
    else if delivered
    then (sent, stored)
    else (delivery_error, delete_code email stored)

-- the calls after `compare_digest` succeeded
sign_in : Text → Text → ℕ → ℕ → ℕ → AuthState → Option Text × AuthState
unfolding delete_code ensure_user put_session
sign_in email token ttl joined_at opened_at s =
    let (user, s') = ensure_user email joined_at (delete_code email s) in
    let session : Session = record { token = token; email = email; expires_at = opened_at + ttl } in
    (some token, put_session session s')

-- the tests from the attempts on, for a code that is pending and has not expired
check_code : PendingCode → Text → Text → Text → ℕ → ℕ → ℕ → AuthState → Option Text × AuthState
unfolding bump_attempts delete_code sign_in
check_code pending email code_hash token ttl joined_at opened_at s =
    let (attempts, s') = bump_attempts email s in
    if ltb max_verify_attempts attempts
    then (none, delete_code email s')
    else if not (pending.code_hash == code_hash)
    then (none, s')
    else sign_in email token ttl joined_at opened_at s'

-- `code_hash` is the hash of the code that the caller sent, `token` the fresh session token; `now`,
-- `joined_at` and `opened_at` are the three readings of the clock.
unfoldable pub verify_code :
    Text → Text → Text → ℕ → ℕ → ℕ → ℕ → AuthState → Option Text × AuthState
unfolding get_code delete_code check_code
verify_code email code_hash token ttl now joined_at opened_at s = elim (get_code email s) [
  | none ↦ (none, delete_code email s)
  | some pending ↦
      if ltb pending.expires_at now
      then (none, delete_code email s)
      else check_code pending email code_hash token ttl joined_at opened_at s
]

unfoldable pub resolve_session : Text → ℕ → AuthState → Option Session × AuthState
unfolding get_session
resolve_session token now s = get_session token now s

unfoldable pub logout : Text → AuthState → AuthState
unfolding delete_session
logout token s = delete_session token s
