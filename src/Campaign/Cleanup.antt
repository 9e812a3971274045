-- ===== src/Campaign/Cleanup.antt =====
-- `cleanup`, with `_unaccounted_jobs` and `_unaccounted_running`, of
-- sim2policy/src/sim2policy/showcase_campaign.py.
pub mod Accepting
use nebius_serverless_challe.Prelude.{
  Text, empty, Bool, false, not, ◌&&◌, ◌||◌, Option, none, some, List, [], ◌∷◌, ◌==◌, if◌then◌else◌,
  option_eq, any,
}
use nebius_serverless_challe.Campaign.State.{
  verified, accepted, rejected, needs_human, cleaned, state_eq, in_states, pass, blocked, Attempt,
}
use nebius_serverless_challe.Campaign.Commands.{
  exit_ok, exit_invariant, Run, reply, with_state, write_state,
}

-- What the provider's audit lists. `sibling` says whether a job's name starts with the prefix of a
-- declared sibling campaign, and `expected` lists the instances that may run.
pub record Audit : Type 0 where
  pub active_jobs : List Text
  pub running_instances : List Text
  pub sibling : Text → Bool
  pub expected : List Text

-- `known_remote`
abbrev pub is_known : List (Text × Attempt) → Text → Bool
is_known [] job = false
is_known ((_, a) ∷ d) job = option_eq a.remote_id (some job) || is_known d job

abbrev pub is_unaccounted_job : Audit → List (Text × Attempt) → Text → Bool
is_unaccounted_job audit attempts job =
    not (job == empty) && not (is_known attempts job) && not (audit.sibling job)

abbrev pub is_unaccounted_running : Audit → Text → Bool
is_unaccounted_running audit instance_id =
    not (instance_id == empty) && not (any (λ e. e == instance_id) audit.expected)

unfoldable pub is_clean : Audit → List (Text × Attempt) → Bool
is_clean audit attempts =
    not (any (is_unaccounted_job audit attempts) audit.active_jobs)
    && not (any (is_unaccounted_running audit) audit.running_instances)

abbrev pub cleaned_attempt : Bool → Attempt → Attempt
cleaned_attempt clean a =
    if in_states a.state (verified ∷ accepted ∷ rejected ∷ needs_human ∷ [])
    then record a {
      cleanup_state = if clean then pass else blocked;
      state = if clean && state_eq a.state verified then cleaned else a.state;
    }
    else a

abbrev pub clean_all : Bool → List (Text × Attempt) → List (Text × Attempt)
clean_all clean [] = []
clean_all clean ((k, a) ∷ d) = (k, cleaned_attempt clean a) ∷ clean_all clean d

-- `answer` is `none` for a `ProviderError`
unfoldable pub cleanup : Option Audit → Run
cleanup answer = with_state (λ s c. elim answer [
  | none ↦ reply exit_invariant "CLEANUP_AUDIT_FAILED" c
  | some audit ↦
      let clean = is_clean audit s.attempts in
      let c' = write_state (record s { attempts = clean_all clean s.attempts }) c in
      if clean
      then reply exit_ok "CLEANUP_PASS" c'
      else reply exit_invariant "UNACCOUNTED_RESOURCE" c'
])
