-- ===== src/Store/Auth.antt =====
-- `class AuthStore` of saas/backend/app/store.py. Pending codes and request times live in the memory
-- of the process, users and sessions in the database; the model keeps all four in one state.
pub mod RateLimit
use nebius_serverless_challe.Prelude.{
  ℕ, ◌+◌, ◌-◌, Text, ◌≡◌, refl, Bool, true, false, Option, none, some, List, [], ◌∷◌, ◌++◌, arith,
  ltb, leb, ◌==◌, if◌then◌else◌, length, select, find?, delete_where,
}
use nebius_serverless_challe.Models.{PendingCode, Session, User}

pub record AuthState : Type 0 where
  pub codes : List (Text × PendingCode)
  pub request_times : List (Text × List ℕ)
  pub users : List User
  pub sessions : List Session

-- A Python dict keyed by e-mail address.
module _ {V : Type 0} where
  abbrev pub dict_get : Text → List (Text × V) → Option V
  dict_get k [] = none
  dict_get k ((j, v) ∷ d) = if j == k then some v else dict_get k d

  -- `d[k] = v`
  abbrev pub dict_set : Text → V → List (Text × V) → List (Text × V)
  dict_set k v [] = (k, v) ∷ []
  dict_set k v ((j, w) ∷ d) = if j == k then (k, v) ∷ d else (j, w) ∷ dict_set k v d

  -- `d.pop(k, None)`
  abbrev pub dict_pop : Text → List (Text × V) → List (Text × V)
  dict_pop k [] = []
  dict_pop k ((j, w) ∷ d) = if j == k then dict_pop k d else (j, w) ∷ dict_pop k d

  pub dict_get-dict_set :
      (k j : Text) (v : V) (d : List (Text × V))
      → dict_get j (dict_set k v d) ≡ (if k == j then some v else dict_get j d)
  dict_get-dict_set k j v [] = refl
  dict_get-dict_set k j v ((i, w) ∷ d) = ground (arith, dict_get-dict_set k j v d)

  pub dict_get-dict_pop :
      (k j : Text) (d : List (Text × V))
      → dict_get j (dict_pop k d) ≡ (if k == j then none else dict_get j d)
  dict_get-dict_pop k j [] = ground arith
  dict_get-dict_pop k j ((i, w) ∷ d) = ground (arith, dict_get-dict_pop k j d)

-- `_request_times.get(email, [])`
abbrev pub times_of : Text → AuthState → List ℕ
times_of email s = elim (dict_get email s.request_times) [ none ↦ [] | some times ↦ times ]

-- `now - t < window_seconds`; a clock that ran back gives 0 here and a negative number there, both
-- less than a window that is not empty.
abbrev pub in_window : ℕ → ℕ → ℕ → Bool
in_window now window t = ltb (now - t) window

-- `now` is read before the lock is taken; the calls are in the order of the lock.
unfoldable pub allow_code_request : Text → ℕ → ℕ → ℕ → AuthState → Bool × AuthState
allow_code_request email limit window now s =
    let times = select (in_window now window) (times_of email s) in
    if leb limit (length times)
    then (false, record s { request_times = dict_set email times s.request_times })
    else (true, record s { request_times = dict_set email (times ++ now ∷ []) s.request_times })

unfoldable pub set_code : Text → PendingCode → AuthState → AuthState
set_code email code s = record s { codes = dict_set email code s.codes }

unfoldable pub get_code : Text → AuthState → Option PendingCode
get_code email s = dict_get email s.codes

unfoldable pub delete_code : Text → AuthState → AuthState
delete_code email s = record s { codes = dict_pop email s.codes }

-- `code.attempts += 1` on the object in the dict
unfoldable pub bump_attempts : Text → AuthState → ℕ × AuthState
bump_attempts email s = elim (dict_get email s.codes) [
  | none ↦ (0, s)
  | some code ↦ (
    code.attempts + 1,
    record s { codes = dict_set email (record code { attempts = code.attempts + 1 }) s.codes },
  )
]

abbrev of_email : Text → User → Bool
of_email email u = u.email == email

-- `INSERT OR IGNORE`, then the row of the address
unfoldable pub ensure_user : Text → ℕ → AuthState → User × AuthState
ensure_user email now s =
    let new : User = record { email = email; created_at = now } in
    elim (find? (of_email email) s.users) [
      | some u ↦ (u, s)
      | none ↦ (new, record s { users = s.users ++ new ∷ [] })
    ]

abbrev pub of_token : Text → Session → Bool
of_token token r = r.token == token

unfoldable pub put_session : Session → AuthState → AuthState
put_session session s = record s {
  sessions = delete_where (of_token session.token) s.sessions ++ session ∷ [];
}

unfoldable pub delete_session : Text → AuthState → AuthState
delete_session token s = record s { sessions = delete_where (of_token token) s.sessions }

-- An expired session is deleted as it is read.
unfoldable pub get_session : Text → ℕ → AuthState → Option Session × AuthState
unfolding delete_session
get_session token now s = elim (find? (of_token token) s.sessions) [
  | none ↦ (none, s)
  | some r ↦ if ltb r.expires_at now then (none, delete_session token s) else (some r, s)
]
