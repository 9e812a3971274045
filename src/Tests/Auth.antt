-- ===== src/Tests/Auth.antt =====
-- Sign-in codes and sessions of saas/backend/app/auth.py at concrete inputs.
use nebius_serverless_challe.Prelude.{
  ℕ, ◌≤◌, ◌<◌, Text, ◌≡◌, refl, ◌≢◌, ◌↔◌, true, none, some, List, [], ◌∷◌, arith, count_if,
}
use nebius_serverless_challe.Models.{PendingCode}
use nebius_serverless_challe.Store.Auth.{AuthState, in_window, set_code, get_code}
use nebius_serverless_challe.Store.Auth.RateLimit.{allowed_times, allow_code_request_limit}
use nebius_serverless_challe.Auth.{max_verify_attempts, verify_code, resolve_session}
use nebius_serverless_challe.Auth.Codes.{
  verify_code_succeeds, Guess, guess, after_guesses, five_wrong_guesses,
}
use nebius_serverless_challe.Auth.{request_code}
use nebius_serverless_challe.Auth.Requests.{verify_code-request_code}
use nebius_serverless_challe.Auth.Sessions.{resolve_session-verify_code}

abbrev no_users : AuthState
no_users = record { codes = []; request_times = []; users = []; sessions = [] }

-- the address and the hash of its code
abbrev anna : Text
anna = 11

abbrev pending : PendingCode
pending = record { code_hash = 123456; expires_at = 700; attempts = 0 }

abbrev asked : AuthState
unfolding set_code
asked = set_code anna pending no_users

-- Three requests for one address and one for another, with at most two in a window of 10.
abbrev requests : List (Text × ℕ)
requests = (anna, 100) ∷ (12, 101) ∷ (anna, 102) ∷ (anna, 103) ∷ []

allow_code_request_limit_example :
    count_if (in_window 105 10) (allowed_times anna 2 10 requests no_users []) ≤ 2
allow_code_request_limit_example =
    allow_code_request_limit anna 2 10 0 requests no_users refl
      (omega arith, (omega arith, (omega arith, (omega arith, tt)))) 105 (omega arith)

verify_code_succeeds_example : ((verify_code anna 123456 900 60 500 501 502 asked).0 ≡ some 900) ↔ (
    (c : PendingCode) × (get_code anna asked ≡ some c)
    × (500 ≤ c.expires_at)
    × (c.attempts < max_verify_attempts)
    × (c.code_hash ≡ 123456))
verify_code_succeeds_example = verify_code_succeeds anna 123456 900 60 500 501 502 asked

abbrev wrong : Guess
wrong = record { hash = 111111; token = 901; ttl = 60; now = 500; joined_at = 501; opened_at = 502 }

abbrev right : Guess
right = record { hash = 123456; token = 902; ttl = 60; now = 510; joined_at = 511; opened_at = 512 }

abbrev wrong_guesses : List Guess
wrong_guesses = wrong ∷ wrong ∷ wrong ∷ wrong ∷ wrong ∷ []

wrong-differs : wrong.hash ≢ pending.code_hash
wrong-differs = λ e. absurd (omega arith)

five_wrong_guesses_example : (guess anna right (after_guesses anna wrong_guesses asked)).0 ≡ none
unfolding get_code asked
five_wrong_guesses_example =
    five_wrong_guesses anna pending wrong_guesses right asked refl
      (wrong-differs, (wrong-differs, (wrong-differs, (wrong-differs, (wrong-differs, tt)))))
      (omega arith)

resolve_session-verify_code_example :
    (resolve_session 900 550 (verify_code anna 123456 900 60 500 501 502 asked).1).0
    ≡ some (record { token = 900; email = anna; expires_at = 562 })
unfolding verify_code asked
resolve_session-verify_code_example =
    resolve_session-verify_code anna 123456 900 60 500 501 502 900 900 550 asked refl

abbrev signed_in : AuthState
unfolding verify_code
signed_in = (verify_code anna 123456 900 60 500 501 502 asked).1

verify_code-request_code_example :
    (verify_code anna 123456 900 60 1000 1001 1002
      (request_code anna 123456 true 500 501 no_users).1).0
    ≡ some 900
unfolding request_code
verify_code-request_code_example =
    verify_code-request_code anna 123456 123456 900 60 true 500 501 1000 1001 1002 no_users refl
      (omega arith)
