-- ===== src/Auth/Requests.antt =====
-- From a requested code to its guess.
use nebius_serverless_challe.Prelude.{
  ℕ, ◌+◌, ◌≤◌, Text, ◌≡◌, refl, Bool, none, some, arith, ◌==◌, if◌then◌else◌,
}
use nebius_serverless_challe.Models.{PendingCode}
use nebius_serverless_challe.Store.Auth.{AuthState, allow_code_request, get_code, dict_get-dict_set}
use nebius_serverless_challe.Auth.{
  sent, request_code, verify_code, code_ttl_seconds, rate_limit_requests, rate_limit_window_seconds,
}

-- The pending code of a request.
abbrev fresh_code : Text → ℕ → PendingCode
fresh_code hash issued = record {
  code_hash = hash;
  expires_at = issued + code_ttl_seconds;
  attempts = 0;
}

request_code_sent :
    (email hash : Text) (delivered : Bool) (requested issued : ℕ) (s : AuthState)
    → (request_code email hash delivered requested issued s).0 ≡ sent
    → get_code email (request_code email hash delivered requested issued s).1
      ≡ some (fresh_code hash issued)
unfolding request_code get_code
request_code_sent email hash delivered requested issued s h =
    let s' =
      (allow_code_request email rate_limit_requests rate_limit_window_seconds requested s).1 in
    ground (arith, dict_get-dict_set email email (fresh_code hash issued) s'.codes)

first_guess :
    (email hash token ttl now joined opened : ℕ) (c : PendingCode) (s : AuthState)
    → get_code email s ≡ some c
    → now ≤ c.expires_at
    → c.attempts ≡ 0
    → (verify_code email hash token ttl now joined opened s).0
      ≡ (if c.code_hash == hash then some token else none)
unfolding verify_code get_code
first_guess email hash token ttl now joined opened c s found early new = ground arith

-- A code that was requested and sent signs in on the first guess within its lifetime of ten minutes,
-- and no other code does.
pub verify_code-request_code :
    (email hash hash' token ttl : ℕ) (delivered : Bool) (requested issued now joined opened : ℕ)
    (s : AuthState)
    → (request_code email hash delivered requested issued s).0 ≡ sent
    → now ≤ issued + code_ttl_seconds
    → (verify_code email hash' token ttl now joined opened
        (request_code email hash delivered requested issued s).1).0
      ≡ (if hash == hash' then some token else none)
verify_code-request_code email hash hash' token ttl delivered requested issued now joined opened s h
      early =
    first_guess email hash' token ttl now joined opened (fresh_code hash issued)
      (request_code email hash delivered requested issued s).1
      (request_code_sent email hash delivered requested issued s h) early refl
