-- ===== src/Campaign/History.antt =====
-- Histories of the commands of sim2policy/src/sim2policy/showcase_campaign.py, each under the lock of
-- the campaign, with watchers that save what they read before they took the lock.
pub mod Journal
use nebius_serverless_challe.Prelude.{
  ℕ, ◌-◌, ◌≤◌, Text, String, ◌≡◌, Bool, Option, none, some, List, [], arith, count_if,
}
use nebius_serverless_challe.Campaign.State.{Phase, Attempt, CampaignState, Campaign, dict_get}
use nebius_serverless_challe.Campaign.Commands.{exit_ok, Run, reply, save_attempt}
use nebius_serverless_challe.Campaign.State.{has_key}
use nebius_serverless_challe.Campaign.Commands.{initialize, Evidence, implementation_gate}
use nebius_serverless_challe.Campaign.Planning.{Matrix, plan}
use nebius_serverless_challe.Campaign.Submission.{submit}
use nebius_serverless_challe.Campaign.Watching.{
  ProviderStatus, Round, observe, closes, goes_on, watch,
}
use nebius_serverless_challe.Campaign.Verification.{Result, verify}
use nebius_serverless_challe.Selection.{Floats}
use nebius_serverless_challe.Campaign.Selecting.{Metrics, select}
use nebius_serverless_challe.Campaign.Examples.{extend, Gates, accept}
use nebius_serverless_challe.Campaign.Cleanup.{Audit, cleanup}
use nebius_serverless_challe.Campaign.Serialized.{active_count, IsSerialized}
use nebius_serverless_challe.Campaign.Effects.{
  CommandRole, as_creation, as_gate, as_saving, as_submission, as_choice, as_audit, Effects,
  Effects-IsSerialized,
}
use nebius_serverless_challe.Campaign.Refinement.{Does, DoesAt-reply}
use nebius_serverless_challe.Campaign.Refinement.Submission.{Does-plan, Does-submit}
use nebius_serverless_challe.Campaign.Refinement.Watching.{
  Does-watch, Does-verify, DoesAt-save_progress, observed_state, closed_state,
}
use nebius_serverless_challe.Campaign.Refinement.Commands.{
  Does-initialize, Does-implementation_gate, Does-select, Does-extend, Does-accept, Does-cleanup,
}

-- The commands that write, as `dispatch` runs them, with what they read of their environment.
pub data Command (F : Floats) : Type 0 where
  initialize_it : Text → Command F
  gate_it : List Evidence → Command F
  plan_it : Matrix → Text → ℕ → Phase → Command F
  submit_it : Matrix → Text → ℕ → Phase → Text → Option Text → Option Text → ℕ → Command F
  watch_it : Bool → ℕ → List Round → Command F
  verify_it : Matrix → Text → ℕ → Phase → Option ProviderStatus → Option Result → Command F
  select_it : Matrix → (Text → Option (Metrics F)) → Text → Command F
  extend_it : Matrix → Text → Text → Command F
  accept_it : (Text → Gates) → Text → Command F
  cleanup_it : Option Audit → Command F

-- `dispatch`
unfoldable pub dispatch : {F : Floats} → Command F → Run
dispatch (initialize_it digest) = initialize digest
dispatch (gate_it documents) = implementation_gate documents
dispatch (plan_it m example seed phase) = plan m example seed phase
dispatch (submit_it m example seed phase confirmation answer found clock) =
    submit m example seed phase confirmation answer found clock
dispatch (watch_it until_terminal max_polls rounds) = watch until_terminal max_polls rounds
dispatch (verify_it m example seed phase polled result) = verify m example seed phase polled result
dispatch {F} (select_it m metrics example) = select F m metrics example
dispatch (extend_it m example confirmation) = extend m example confirmation
dispatch (accept_it gates example) = accept gates example
dispatch (cleanup_it answer) = cleanup answer

-- The save of a watcher's round, on the state that it reads again under the lock.
abbrev pub save_round : Text → Attempt → CampaignState → Run
save_round key a s = save_attempt "watch" key a s (λ s'. reply exit_ok "TERMINAL")

-- A step: a command runs alone, or a watcher saves a round that it observed on an attempt as it was
-- at any time before.
pub data CampaignStep (F : Floats) : Campaign → Campaign → Type 0 where
  command : (c : Campaign) (cmd : Command F) → CampaignStep F c (dispatch cmd c).1
  late :
      (c : Campaign) (s : CampaignState) (key : Text) (b a a' : Attempt) (r : Round)
      → c.state ≡ some s
      → dict_get key s.attempts ≡ some b
      → observe r a ≡ goes_on a'
      → CampaignStep F c (save_round key a' s c).1
  late_close :
      (c : Campaign) (s : CampaignState) (key : Text) (b a a' : Attempt) (r : Round) (code : ℕ)
      (reason : String)
      → c.state ≡ some s
      → dict_get key s.attempts ≡ some b
      → observe r a ≡ closes a' code reason
      → CampaignStep F c (save_round key a' s c).1

-- A campaign's files before `initialize`.
abbrev pub new_campaign : Campaign
new_campaign = record { state = none; journal = []; submissions = [] }

pub data Reachable (F : Floats) : Campaign → Type 0 where
  start : Reachable F new_campaign
  next : {c d : Campaign} → Reachable F c → CampaignStep F c d → Reachable F d

-- What each command is for; a late save of a watcher saves.
abbrev pub role_of : {F : Floats} → Command F → CommandRole
role_of (initialize_it digest) = as_creation
role_of (gate_it documents) = as_gate
role_of (plan_it m example seed phase) = as_saving
role_of (submit_it m example seed phase confirmation answer found clock) = as_submission
role_of (watch_it until_terminal max_polls rounds) = as_saving
role_of (verify_it m example seed phase polled result) = as_saving
role_of (select_it m metrics example) = as_choice
role_of (extend_it m example confirmation) = as_choice
role_of (accept_it gates example) = as_choice
role_of (cleanup_it answer) = as_audit

abbrev pub step_role : {F : Floats} {c d : Campaign} → CampaignStep F c d → CommandRole
step_role (command c cmd) = role_of cmd
step_role (late c s key b a a' r here found round) = as_saving
step_role (late_close c s key b a a' r code reason here found round) = as_saving

dispatch-Does : {F : Floats} (cmd : Command F) → Does (role_of cmd) (dispatch cmd)
unfolding dispatch
dispatch-Does (initialize_it digest) = Does-initialize digest
dispatch-Does (gate_it documents) = Does-implementation_gate documents
dispatch-Does (plan_it m example seed phase) = Does-plan m example seed phase
dispatch-Does (submit_it m example seed phase confirmation answer found clock) =
    Does-submit m example seed phase confirmation answer found clock
dispatch-Does (watch_it until_terminal max_polls rounds) =
    Does-watch until_terminal max_polls rounds
dispatch-Does (verify_it m example seed phase polled result) =
    Does-verify m example seed phase polled result
dispatch-Does {F} (select_it m metrics example) = Does-select F m metrics example
dispatch-Does (extend_it m example confirmation) = Does-extend m example confirmation
dispatch-Does (accept_it gates example) = Does-accept gates example
dispatch-Does (cleanup_it answer) = Does-cleanup answer

-- From a campaign whose keys are distinct and in which at most one attempt is active, every command
-- and every late save of a watcher refines a sequence of the effects that `Effect` allows its role:
-- attempts change only by transitions of the table and with a line of the journal, but for the
-- marks of `cleanup`'s audit; only `implementation_gate` changes the gate of a campaign, and only
-- `submit` launches a job, with the gate passed, from a preflighted attempt, while no attempt is
-- active.
pub CampaignStep-Effects :
    {F : Floats} {c d : Campaign} (step : CampaignStep F c d)
    → IsSerialized c
    → Effects (step_role step) c d
CampaignStep-Effects (command c cmd) h = (dispatch-Does cmd).effects c h
CampaignStep-Effects (late c s key b a a' r here found round) h =
    (DoesAt-save_progress "watch" key a' b s _ found (observed_state r a a' round)
        (λ t. DoesAt-reply t _ _)).outcome
      c here h
CampaignStep-Effects (late_close c s key b a a' r code reason here found round) h =
    (DoesAt-save_progress "watch" key a' b s _ found (closed_state r a a' code reason round)
        (λ t. DoesAt-reply t _ _)).outcome
      c here h

pub Reachable-IsSerialized : {F : Floats} {c : Campaign} → Reachable F c → IsSerialized c
Reachable-IsSerialized start = record { at = λ s e. absurd (ground arith) }
Reachable-IsSerialized (next r st) =
    let h = Reachable-IsSerialized r in Effects-IsSerialized (CampaignStep-Effects st h) h

-- In every history of commands and late saves of watchers, the recorded keys are distinct and at
-- most one attempt of the campaign is active.
pub Reachable-active_count :
    {F : Floats} {c : Campaign} (s : CampaignState)
    → Reachable F c
    → c.state ≡ some s
    → ((k : Text) → count_if (has_key k) s.attempts ≤ 1) × (active_count s.attempts ≤ 1)
Reachable-active_count s r here =
    let h = (Reachable-IsSerialized r).at s here in (h.unique, h.single)
