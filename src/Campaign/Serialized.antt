-- ===== src/Campaign/Serialized.antt =====
-- At most one attempt of a campaign is active: what saving an attempt keeps, after
-- sim2policy/src/sim2policy/campaign_state.py.
use nebius_serverless_challe.Prelude.{
  ℕ, ◌+◌, ◌≤◌, Text, ◌≡◌, refl, ◌≢◌, inl, inr, true, false, none, some, List, arith, if◌then◌else◌,
  Bool-cases, Option-cases, count_if,
}
use nebius_serverless_challe.Campaign.State.{
  AttemptState, submitted, state_eq, is_transition, is_active_state, Attempt, CampaignState,
  Campaign, dict_get, dict_set,
}
use nebius_serverless_challe.Campaign.Commands.{may_follow, state_of}
use nebius_serverless_challe.Campaign.State.{has_key}
use nebius_serverless_challe.Campaign.State.Transitions.{active_before}
use nebius_serverless_challe.Campaign.State.Dict.{passes, passing, count_if-dict_set, keys-dict_set}

-- the number of active attempts
abbrev pub active_count : List (Text × Attempt) → ℕ
active_count attempts = count_if (passes (λ (a : Attempt). is_active_state a.state)) attempts

-- No key stands twice, and at most one attempt is active.
pub record IsSerial (attempts : List (Text × Attempt)) : Type 0 where
  pub unique : (k : Text) → count_if (has_key k) attempts ≤ 1
  pub single : active_count attempts ≤ 1

-- A campaign that is initialized is so.
pub record IsSerialized (c : Campaign) : Type 0 where
  pub at : (s : CampaignState) → c.state ≡ some s → IsSerial s.attempts

IsSerial-dict_set :
    (key : Text) (a : Attempt) (attempts : List (Text × Attempt))
    → IsSerial attempts
    → active_count attempts + (if is_active_state a.state then 1 else 0)
      ≤ 1 + passing (λ (b : Attempt). is_active_state b.state) (dict_get key attempts)
    → IsSerial (dict_set key a attempts)
IsSerial-dict_set key a attempts h room = record {
  unique = λ k. keys-dict_set k key a attempts h.unique;
  single =
      omega (arith, count_if-dict_set (λ (b : Attempt). is_active_state b.state) key a attempts);
}

-- What is saved is not active.
IsSerial-dict_set_idle :
    (key : Text) (a : Attempt) (attempts : List (Text × Attempt))
    → is_active_state a.state ≡ false
    → IsSerial attempts
    → IsSerial (dict_set key a attempts)
IsSerial-dict_set_idle key a attempts idle h =
    IsSerial-dict_set key a attempts h (rw idle (omega (arith, h.single)))

-- What is saved follows the state that is recorded, and is not a submission.
IsSerial-dict_set_progress :
    (key : Text) (a b : Attempt) (attempts : List (Text × Attempt))
    → dict_get key attempts ≡ some b
    → is_transition b.state a.state ≡ true
    → a.state ≢ submitted
    → IsSerial attempts
    → IsSerial (dict_set key a attempts)
IsSerial-dict_set_progress key a b attempts found follows unlike h =
    elim (Bool-cases (is_active_state a.state)) [
      | inr idle ↦ IsSerial-dict_set_idle key a attempts idle h
      | inl active ↦ elim (active_before b.state a.state follows active) [
        | inr (_, submission) ↦ absurd (unlike submission)
        | inl before ↦
            IsSerial-dict_set key a attempts h (rw (active, found) (ground (arith, h.single)))
      ]
    ]

-- What may be saved: a new attempt is not active, and a submission follows while no attempt is.
pub record Permitted (attempts : List (Text × Attempt)) (key : Text) (a : Attempt) : Type 0 where
  pub known : dict_get key attempts ≡ none → is_active_state a.state ≡ false
  pub alone : a.state ≡ submitted → active_count attempts ≡ 0

eq_submitted : (a : AttemptState) → state_eq a submitted ≡ true → a ≡ submitted
eq_submitted submitted h = refl
eq_submitted _ h = absurd (ground arith)

pub IsSerial-dict_set-Permitted :
    (key : Text) (a : Attempt) (attempts : List (Text × Attempt))
    → may_follow (state_of (dict_get key attempts)) a.state ≡ true
    → Permitted attempts key a
    → IsSerial attempts
    → IsSerial (dict_set key a attempts)
IsSerial-dict_set-Permitted key a attempts allowed p h =
    elim (Option-cases (dict_get key attempts)) [
      | inl new ↦ IsSerial-dict_set_idle key a attempts (p.known new) h
      | inr (b, found) ↦ elim (Bool-cases (state_eq a.state submitted)) [
        | inl submission ↦
            let idle = p.alone (eq_submitted a.state submission) in
            IsSerial-dict_set key a attempts h (ground (arith, idle))
        | inr later ↦
            IsSerial-dict_set_progress key a b attempts found (rw found at allowed)
              (λ e. ground arith) h
      ]
    ]

-- An attempt that is not active may be saved.
pub Permitted-idle :
    (key : Text) (a : Attempt) (attempts : List (Text × Attempt))
    → is_active_state a.state ≡ false
    → Permitted attempts key a
Permitted-idle key a attempts idle = record { known = λ _. idle; alone = λ e. ground arith }

-- So may an attempt under a key that is recorded, if it is not submitted.
pub Permitted-progress :
    (key : Text) (a b : Attempt) (attempts : List (Text × Attempt))
    → dict_get key attempts ≡ some b
    → a.state ≢ submitted
    → Permitted attempts key a
Permitted-progress key a b attempts found unlike = record {
  known = λ new. ground arith;
  alone = λ e. absurd (unlike e);
}

pub Permitted-submission :
    (key : Text) (a b : Attempt) (attempts : List (Text × Attempt))
    → dict_get key attempts ≡ some b
    → active_count attempts ≡ 0
    → Permitted attempts key a
Permitted-submission key a b attempts found idle = record {
  known = λ new. ground arith;
  alone = λ _. idle;
}
