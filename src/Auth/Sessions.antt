-- ===== src/Auth/Sessions.antt =====
-- Sessions: how long a token resolves, and to whom.
use nebius_serverless_challe.Prelude.{
  ℕ, ◌+◌, Text, ◌≡◌, Option, none, some, List, [], ◌∷◌, ◌++◌, arith, ltb, ◌==◌, if◌then◌else◌,
  find?, delete_where,
}
use nebius_serverless_challe.Models.{Session}
use nebius_serverless_challe.Store.Auth.{AuthState, of_token, delete_session}
use nebius_serverless_challe.Auth.{verify_code, resolve_session, logout}

-- The unexpired session of a row.
abbrev live_session : ℕ → Option Session → Option Session
live_session now none = none
live_session now (some r) = if ltb r.expires_at now then none else some r

resolve_lem :
    (t : Text) (now : ℕ) (s : AuthState)
    → (resolve_session t now s).0 ≡ live_session now (find? (of_token t) s.sessions)
unfolding resolve_session
resolve_lem t now s = ground arith

find?-put_session :
    (u : Text) (r : Session) (rows : List Session)
    → find? (of_token u) (delete_where (of_token r.token) rows ++ r ∷ [])
      ≡ (if r.token == u then some r else find? (of_token u) rows)
find?-put_session u r [] = ground arith
find?-put_session u r (x ∷ rows) = ground (arith, find?-put_session u r rows)

-- A successful guess stores one session, and touches no other row.
verify_code_sessions :
    (email hash token ttl now joined opened : ℕ) (t : Text) (s : AuthState)
    → (verify_code email hash token ttl now joined opened s).0 ≡ some t
    → (t ≡ token)
      × ((verify_code email hash token ttl now joined opened s).1.sessions
          ≡ delete_where (of_token token) s.sessions
            ++ record { token = token; email = email; expires_at = opened + ttl } ∷ [])
unfolding verify_code
verify_code_sessions email hash token ttl now joined opened t s h = ground arith

-- After a sign-in the new token resolves to the address that signed in, until the session's
-- lifetime has passed and not after; every other token resolves as before.
pub resolve_session-verify_code :
    (email hash token ttl now joined opened : ℕ) (t u : Text) (later : ℕ) (s : AuthState)
    → (verify_code email hash token ttl now joined opened s).0 ≡ some t
    → (resolve_session u later (verify_code email hash token ttl now joined opened s).1).0 ≡ (
        if t == u
        then if ltb (opened + ttl) later
          then none
          else some (record { token = t; email = email; expires_at = opened + ttl })
        else (resolve_session u later s).0)
resolve_session-verify_code email hash token ttl now joined opened t u later s h =
    let (mine, rows) = verify_code_sessions email hash token ttl now joined opened t s h in
    let new : Session = record { token = token; email = email; expires_at = opened + ttl } in
    ground (
      arith,
      resolve_lem u later (verify_code email hash token ttl now joined opened s).1,
      resolve_lem u later s,
      find?-put_session u new s.sessions,
      rows,
    )

find?-delete_session :
    (t u : Text) (rows : List Session)
    → find? (of_token u) (delete_where (of_token t) rows)
      ≡ (if t == u then none else find? (of_token u) rows)
find?-delete_session t u [] = ground arith
find?-delete_session t u (x ∷ rows) = ground (arith, find?-delete_session t u rows)

-- After a logout the token resolves to nothing; every other token resolves as before.
pub resolve_session-logout :
    (t u : Text) (later : ℕ) (s : AuthState)
    → (resolve_session u later (logout t s)).0
      ≡ (if t == u then none else (resolve_session u later s).0)
unfolding logout
resolve_session-logout t u later s = ground (
  arith,
  resolve_lem u later (delete_session t s),
  resolve_lem u later s,
  find?-delete_session t u s.sessions,
)

-- A session that was found expired is gone for good: it resolves to nothing afterwards, at any
-- reading of the clock.
pub resolve_session_expired :
    (t : Text) (now later : ℕ) (s : AuthState)
    → (resolve_session t now s).0 ≡ none
    → (resolve_session t later (resolve_session t now s).1).0 ≡ none
unfolding resolve_session
resolve_session_expired t now later s h = ground (arith, find?-delete_session t t s.sessions)
