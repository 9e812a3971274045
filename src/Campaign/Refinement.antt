-- ===== src/Campaign/Refinement.antt =====
-- That a command of sim2policy/src/sim2policy/showcase_campaign.py does effects only: a rule for each
-- way to write a command.
pub mod Submission
pub mod Watching
pub mod Commands
use nebius_serverless_challe.Prelude.{ℕ, ◌-◌, Text, String, ◌≡◌, refl, Bool, true, List}
use nebius_serverless_challe.Campaign.State.{Attempt, Example, CampaignState, Campaign, dict_get}
use nebius_serverless_challe.Campaign.Commands.{
  may_follow, state_of, Run, reply, raise_error, with_state, write_state, save_attempt,
}
use nebius_serverless_challe.Campaign.Commands.{saved}
use nebius_serverless_challe.Campaign.Rules.{Ensures, Ensures-with_state, Ensures-save_attempt}
use nebius_serverless_challe.Campaign.Effects.{
  CommandRole, as_gate, as_choice, may_save, set_gate, note, save, Effects, no_more, first,
  Effect-IsSerialized,
}
use nebius_serverless_challe.Campaign.Serialized.{IsSerial, IsSerialized, Permitted}

-- A command with a role, from a serialized campaign.
pub record Does (role : CommandRole) (run : Run) : Type 0 where
  pub effects : (c : Campaign) → IsSerialized c → Effects role c (run c).1

-- What a command goes on with, in the state that it read or saved.
abbrev pub DoesAt : CommandRole → CampaignState → Run → Type 0
DoesAt role = Ensures (λ c r. IsSerialized c → Effects role c r.1)

pub DoesAt-reply :
    {role : CommandRole} (s : CampaignState) (code : ℕ) (reason : String)
    → DoesAt role s (reply code reason)
DoesAt-reply s code reason = record { outcome = λ c here h. no_more }

pub DoesAt-raise : {role : CommandRole} (s : CampaignState) → DoesAt role s raise_error
DoesAt-raise s = record { outcome = λ c here h. no_more }

pub DoesAt-of_Does :
    {role : CommandRole} (s : CampaignState) (run : Run) → Does role run → DoesAt role s run
DoesAt-of_Does s run d = record { outcome = λ c here h. d.effects c h }

pub Does-with_state :
    {role : CommandRole} (next : CampaignState → Run)
    → ((s : CampaignState) → IsSerial s.attempts → DoesAt role s (next s))
    → Does role (with_state next)
Does-with_state {role} next k = record {
  effects = λ c h.
      Ensures-with_state {R = λ d r. IsSerialized d → IsSerialized d → Effects role d r.1} next c
        (λ _ _. no_more)
        (λ s here. record { outcome = λ d there g. (k s (g.at s there)).outcome d there }) h h;
}

pub DoesAt-save_attempt :
    {role : CommandRole} (command : String) (key : Text) (a : Attempt) (s : CampaignState)
    (next : CampaignState → Run)
    → (may_follow (state_of (dict_get key s.attempts)) a.state ≡ true → Permitted s.attempts key a)
    → may_save role ≡ true
    → DoesAt role (saved key a s) (next (saved key a s))
    → DoesAt role s (save_attempt command key a s next)
DoesAt-save_attempt {role} command key a s next permitted saves k =
    Ensures-save_attempt command key a s next (λ c here h. no_more)
      (λ allowed c here h.
        let e = save role c s command key a here allowed (permitted allowed) saves in
        first e (k.outcome _ refl (Effect-IsSerialized e h)))

-- The rules for a write of the gate, or of the examples, and a reply.
pub DoesAt-set_gate :
    (code : ℕ) (reason : String) (s : CampaignState) (gate : Bool)
    → DoesAt as_gate s (λ c. reply code reason (write_state (record s { gate_passed = gate }) c))
DoesAt-set_gate code reason s gate = record {
  outcome = λ c here h. first (set_gate c s gate here) no_more;
}

pub DoesAt-note :
    (code : ℕ) (reason : String) (s : CampaignState) (examples : List (Text × Example))
    → DoesAt as_choice s (λ c. reply code reason (write_state (record s { examples = examples }) c))
DoesAt-note code reason s examples = record {
  outcome = λ c here h. first (note c s examples here) no_more;
}
