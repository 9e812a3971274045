-- ===== src/Campaign/State.antt =====
-- sim2policy/src/sim2policy/campaign_state.py: the states of an attempt, their transitions, and what
-- a campaign keeps in its directory.
pub mod Transitions
pub mod Dict
use nebius_serverless_challe.Prelude.{
  ℕ, Text, String, Bool, ◌||◌, Option, none, some, List, [], ◌∷◌, ltb, ◌==◌, if◌then◌else◌, any,
}

pub data AttemptState : Type 0 where
  planned preflighted submitted running finalizing verified accepted rejected needs_human cleaned :
      AttemptState

abbrev pub state_number : AttemptState → ℕ
state_number planned = 0
state_number preflighted = 1
state_number submitted = 2
state_number running = 3
state_number finalizing = 4
state_number verified = 5
state_number accepted = 6
state_number rejected = 7
state_number needs_human = 8
state_number cleaned = 9

abbrev pub state_eq : AttemptState → AttemptState → Bool
state_eq a b = state_number a == state_number b

abbrev pub in_states : AttemptState → List AttemptState → Bool
in_states s states = any (λ t. state_eq t s) states

-- TRANSITIONS
abbrev pub transitions : AttemptState → List AttemptState
transitions planned = preflighted ∷ needs_human ∷ []
transitions preflighted = submitted ∷ planned ∷ needs_human ∷ []
transitions submitted = running ∷ finalizing ∷ verified ∷ needs_human ∷ []
transitions running = running ∷ finalizing ∷ verified ∷ needs_human ∷ []
transitions finalizing = finalizing ∷ verified ∷ needs_human ∷ []
transitions verified = accepted ∷ rejected ∷ needs_human ∷ cleaned ∷ []
transitions accepted = cleaned ∷ needs_human ∷ []
transitions rejected = cleaned ∷ needs_human ∷ []
transitions needs_human = cleaned ∷ planned ∷ verified ∷ []
transitions cleaned = []

-- `validate_transition` returns; a state that is not in STATES cannot be written here.
abbrev pub is_transition : AttemptState → AttemptState → Bool
is_transition before after = state_eq after before || in_states after (transitions before)

-- ACTIVE_STATES
abbrev pub active_states : List AttemptState
active_states = submitted ∷ running ∷ finalizing ∷ []

abbrev pub is_active_state : AttemptState → Bool
is_active_state s = in_states s active_states

-- The phase of an attempt, one of "base" and "extension".
pub data Phase : Type 0 where
  base extension : Phase

pub data Cleanup : Type 0 where
  not_started pass blocked : Cleanup

-- A provider's terminal state, by the names that the controller tells apart: COMPLETED or SUCCEEDED,
-- CANCELLED, FAILED or ERROR, and any other.
pub data TerminalState : Type 0 where
  completed cancelled failed other : TerminalState

-- The reason codes that are stored in an attempt.
pub data Reason : Type 0 where
  submit_failed heartbeat_lost unknown_provider_state : Reason
  evidence_verified failed_before_checkpoint finalization_only_failure : Reason
  artifact_checksum_failure : Reason

-- What an attempt records; the times of its writes and what it only reports are left out.
pub record Attempt : Type 0 where
  pub example : Text
  pub seed : ℕ
  pub phase : Phase
  pub attempt_number : ℕ
  pub state : AttemptState
  pub plan_digest : Text
  pub run_id : Text
  pub remote_id : Option Text
  pub idempotency_key : Text
  pub evidence_digest : Option Text
  pub cleanup_state : Cleanup
  pub retries_consumed : ℕ
  pub reason_code : Option Reason
  pub heartbeat_at : ℕ
  pub provider_terminal_state : Option TerminalState

pub record Selection : Type 0 where
  pub run_id : Text
  pub seed : ℕ
  pub checkpoint_sha256 : Text
  pub effective_step : ℕ
  pub runner_up : Option Text
  pub candidate_count : ℕ
  pub preferred_passed : Bool
  pub decision : String

-- `cleanup_passed` tells PASS from INCOMPLETE.
pub record Acceptance : Type 0 where
  pub hard_gate : Bool
  pub preferred_target : Bool
  pub cleanup_passed : Bool
  pub decision : String

-- What is recorded of an example.
pub record Example : Type 0 where
  pub extension_consumed : Bool
  pub selection : Option Selection
  pub acceptance : Option Acceptance

-- The document state.json. A dict is a list in the order of its sorted keys, in which it is written
-- and read again.
pub record CampaignState : Type 0 where
  pub matrix_digest : Text
  pub gate_passed : Bool
  pub attempts : List (Text × Attempt)
  pub examples : List (Text × Example)

-- A line of the journal about an attempt.
pub record Entry : Type 0 where
  pub command : String
  pub key : Text
  pub before : Option AttemptState
  pub after : AttemptState

-- The files of a campaign, and the run of every call of the provider's `submit`.
pub record Campaign : Type 0 where
  pub state : Option CampaignState
  pub journal : List Entry
  pub submissions : List Text

module _ {V : Type 0} where
  abbrev pub dict_get : Text → List (Text × V) → Option V
  dict_get k [] = none
  dict_get k ((j, v) ∷ d) = if j == k then some v else dict_get k d

  abbrev pub has_key : Text → (Text × V) → Bool
  has_key k e = e.0 == k

  abbrev pub replace_key : Text → V → List (Text × V) → List (Text × V)
  replace_key k v [] = []
  replace_key k v ((j, w) ∷ d) = if j == k then (k, v) ∷ d else (j, w) ∷ replace_key k v d

  -- a new key at its place in the order of the keys
  abbrev pub insert_key : Text → V → List (Text × V) → List (Text × V)
  insert_key k v [] = (k, v) ∷ []
  insert_key k v ((j, w) ∷ d) = if ltb k j then (k, v) ∷ (j, w) ∷ d else (j, w) ∷ insert_key k v d

  -- `d[k] = v`
  abbrev pub dict_set : Text → V → List (Text × V) → List (Text × V)
  dict_set k v d = if any (has_key k) d then replace_key k v d else insert_key k v d

-- `active_attempt`: the first active attempt, with its key
abbrev pub first_active : List (Text × Attempt) → Option (Text × Attempt)
first_active [] = none
first_active ((k, a) ∷ d) = if is_active_state a.state then some (k, a) else first_active d

unfoldable pub active_attempt : CampaignState → Option (Text × Attempt)
active_attempt s = first_active s.attempts
