-- ===== src/Orchestration/States.antt =====
-- `map_nebius_state` of saas/backend/app/orchestration.py, over the code points of the raw name.
pub mod Spelling
use nebius_serverless_challe.Prelude.{
  ℕ, ◌-◌, String, Bool, true, false, ◌&&◌, ◌||◌, Option, none, some, List, [], ◌∷◌, leb, ◌==◌,
  if◌then◌else◌,
}
use Prim.Native.Char.{code}
use nebius_serverless_challe.Models.{Status}

-- A name of a remote state, as code points. `upper` is that of ASCII, in which the names are.
abbrev pub RawState : Type 0
RawState = List ℕ

abbrev pub codes : String → RawState
codes String.[] = []
codes (String.◌∷◌ c s) = code c ∷ codes s

pub upper_code : ℕ → ℕ
upper_code c = if leb b'a' c && leb c b'z' then c - 32 else c

abbrev pub upper : RawState → RawState
upper [] = []
upper (c ∷ s) = upper_code c ∷ upper s

-- `raw.rsplit("_", 1)[-1]`: what follows the last underscore, or all of it
abbrev pub last_word : RawState → RawState → RawState
last_word whole [] = whole
last_word whole (c ∷ s) = last_word (if c == b'_' then s else whole) s

abbrev pub same_codes : RawState → RawState → Bool
same_codes [] [] = true
same_codes (a ∷ s) (b ∷ t) = a == b && same_codes s t
same_codes _ _ = false

-- `state in { … }`
abbrev pub one_of : RawState → List String → Bool
one_of s [] = false
one_of s (n ∷ names) = same_codes s (codes n) || one_of s names

abbrev starting_names : List String
starting_names = "QUEUED" ∷ "QUEUING" ∷ "PENDING" ∷ "PROVISIONING" ∷ "STARTING" ∷ "CREATING" ∷ []

abbrev running_names : List String
running_names = "RUNNING" ∷ "ACTIVE" ∷ []

abbrev success_names : List String
success_names = "SUCCEEDED" ∷ "SUCCESS" ∷ "COMPLETED" ∷ "FINISHED" ∷ "DONE" ∷ []

abbrev failure_names : List String
failure_names = "FAILED" ∷ "ERROR" ∷ "CANCELLED" ∷ "CANCELED" ∷ "TIMEOUT" ∷ "EXPIRED" ∷ []

state_of_word : RawState → Option Status
state_of_word state =
    if one_of state starting_names
    then some Status.starting
    else if one_of state running_names
    then some Status.training
    else if one_of state success_names
    then some Status.completed
    else if one_of state failure_names
    then some Status.failed
    else none

unfoldable pub map_nebius_state : RawState → Option Status
unfolding state_of_word upper_code
map_nebius_state raw = state_of_word (upper (last_word raw raw))
