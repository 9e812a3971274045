-- ===== src/Campaign/Effects.antt =====
-- What the commands of sim2policy/src/sim2policy/showcase_campaign.py may do to a campaign, one
-- effect at a time, as campaign_state.py promises it.
use mathlib.Core.Path.{subst}
use nebius_serverless_challe.Prelude.{
  Text, String, ◌≡◌, refl, Bool, true, false, none, some, List, [], ◌∷◌, ◌++◌, arith, count_if,
}
use nebius_serverless_challe.Campaign.State.{
  preflighted, is_active_state, Attempt, Example, CampaignState, Campaign, dict_get,
}
use nebius_serverless_challe.Campaign.Commands.{may_follow, state_of, write_state}
use nebius_serverless_challe.Campaign.Commands.{saved, save_entry, with_entry}
use nebius_serverless_challe.Campaign.State.{has_key}
use nebius_serverless_challe.Campaign.Cleanup.{cleaned_attempt, clean_all}
use nebius_serverless_challe.Campaign.Serialized.{
  active_count, IsSerial, IsSerialized, Permitted, IsSerial-dict_set-Permitted,
}

abbrev pub launched : Text → Campaign → Campaign
launched run_id c = record c { submissions = c.submissions ++ run_id ∷ [] }

-- What a command is for, which says which effects it may have.
pub data CommandRole : Type 0 where
  as_creation as_gate as_saving as_submission as_choice as_audit : CommandRole

abbrev pub may_save : CommandRole → Bool
may_save as_saving = true
may_save as_submission = true
may_save _ = false

-- One effect of a command with a role. A campaign is created; the gate is set; what is recorded of
-- examples changes; an attempt is saved by a transition of the table, with a line of the journal; a
-- job is launched, which takes the gate, a preflighted attempt and that no attempt is active; an
-- audit marks attempts as cleaned.
pub data Effect : CommandRole → Campaign → Campaign → Type 0 where
  create :
      (c : Campaign) (digest : Text)
      → c.state ≡ none
      → Effect as_creation c (
          write_state
            (record { matrix_digest = digest; gate_passed = false; attempts = []; examples = [] })
            c)
  set_gate :
      (c : Campaign) (s : CampaignState) (gate : Bool)
      → c.state ≡ some s
      → Effect as_gate c (write_state (record s { gate_passed = gate }) c)
  note :
      (c : Campaign) (s : CampaignState) (examples : List (Text × Example))
      → c.state ≡ some s
      → Effect as_choice c (write_state (record s { examples = examples }) c)
  save :
      (role : CommandRole) (c : Campaign) (s : CampaignState) (command : String) (key : Text)
      (a : Attempt)
      → c.state ≡ some s
      → may_follow (state_of (dict_get key s.attempts)) a.state ≡ true
      → Permitted s.attempts key a
      → may_save role ≡ true
      → Effect role c (with_entry (save_entry command key a s) (saved key a s) c)
  launch :
      (c : Campaign) (s : CampaignState) (key : Text) (a : Attempt) (run_id : Text)
      → c.state ≡ some s
      → s.gate_passed ≡ true
      → active_count s.attempts ≡ 0
      → dict_get key s.attempts ≡ some a
      → a.state ≡ preflighted
      → Effect as_submission c (launched run_id c)
  clean :
      (c : Campaign) (s : CampaignState) (passed : Bool)
      → c.state ≡ some s
      → Effect as_audit c (write_state (record s { attempts = clean_all passed s.attempts }) c)

-- Effects of a command with a role, one after the other.
pub data Effects (role : CommandRole) : Campaign → Campaign → Type 0 where
  no_more : {c : Campaign} → Effects role c c
  first : {c d e : Campaign} → Effect role c d → Effects role d e → Effects role c e

IsSerialized-some :
    (s : CampaignState) (c : Campaign) → c.state ≡ some s → IsSerial s.attempts → IsSerialized c
IsSerialized-some s c here h = record {
  at = λ t e. let same : s.attempts ≡ t.attempts = ground arith in subst IsSerial same h;
}

-- An audit changes no key, and neither makes nor ends an active attempt.
keys-clean_all :
    (k : Text) (passed : Bool) (d : List (Text × Attempt))
    → count_if (has_key k) (clean_all passed d) ≡ count_if (has_key k) d
keys-clean_all k passed [] = refl
keys-clean_all k passed ((j, a) ∷ d) = ground (arith, keys-clean_all k passed d)

cleaned_active :
    (passed : Bool) (a : Attempt)
    → is_active_state (cleaned_attempt passed a).state ≡ is_active_state a.state
cleaned_active passed a = ground arith

active_count-clean_all :
    (passed : Bool) (d : List (Text × Attempt)) → active_count (clean_all passed d) ≡ active_count d
active_count-clean_all passed [] = refl
active_count-clean_all passed ((j, a) ∷ d) =
    rw (cleaned_active passed a, active_count-clean_all passed d)

pub Effect-IsSerialized :
    {role : CommandRole} {c d : Campaign} → Effect role c d → IsSerialized c → IsSerialized d
Effect-IsSerialized (create c digest new) h =
    IsSerialized-some _ _ refl (record { unique = λ k. omega arith; single = omega arith })
Effect-IsSerialized (set_gate c s gate here) h = IsSerialized-some _ _ refl (h.at s here)
Effect-IsSerialized (note c s examples here) h = IsSerialized-some _ _ refl (h.at s here)
Effect-IsSerialized (save role c s command key a here allowed permitted saves) h =
    IsSerialized-some _ _ refl
      (IsSerial-dict_set-Permitted key a s.attempts allowed permitted (h.at s here))
Effect-IsSerialized (launch c s key a run_id here gate idle found ready) h = record { at = h.at }
Effect-IsSerialized (clean c s passed here) h =
    let before = h.at s here in
    IsSerialized-some _ _ refl (record {
      unique = λ k. rw (keys-clean_all k passed s.attempts) (before.unique k);
      single = rw (active_count-clean_all passed s.attempts) before.single;
    })

pub Effects-IsSerialized :
    {role : CommandRole} {c d : Campaign} → Effects role c d → IsSerialized c → IsSerialized d
Effects-IsSerialized no_more h = h
Effects-IsSerialized (first e rest) h = Effects-IsSerialized rest (Effect-IsSerialized e h)
