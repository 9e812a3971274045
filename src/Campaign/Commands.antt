-- ===== src/Campaign/Commands.antt =====
-- What the commands of sim2policy/src/sim2policy/showcase_campaign.py share: their replies, how they
-- read and write the state, `_save_attempt`, `initialize` and `implementation_gate`.
use nebius_serverless_challe.Prelude.{
  ℕ, Text, String, Bool, true, false, not, Option, none, some, List, [], ◌∷◌, ◌++◌, ◌==◌,
  if◌then◌else◌, any,
}
use nebius_serverless_challe.Campaign.State.{
  AttemptState, is_transition, Attempt, CampaignState, Entry, Campaign, dict_get, dict_set,
}

-- A command replies with an exit code and a reason, raises a `CampaignError`, or is interrupted.
pub data Reply : Type 0 where
  raised interrupted : Reply
  replied : ℕ → String → Reply

-- the exit codes
abbrev pub exit_ok : ℕ
exit_ok = 0

abbrev pub exit_active : ℕ
exit_active = 10

abbrev pub exit_rejected : ℕ
exit_rejected = 20

abbrev pub exit_needs_human : ℕ
exit_needs_human = 30

abbrev pub exit_invariant : ℕ
exit_invariant = 40

-- A command: what it replies, and the files that it leaves. An exception undoes nothing.
abbrev pub Run : Type 0
Run = Campaign → Reply × Campaign

abbrev pub reply : ℕ → String → Run
reply code reason c = (replied code reason, c)

abbrev pub raise_error : Run
raise_error c = (raised, c)

-- `state = self.store.read()`
abbrev pub with_state : (CampaignState → Run) → Run
with_state next c = elim c.state [ none ↦ raise_error c | some s ↦ next s c ]

-- `self.store.write(state)`
abbrev pub write_state : CampaignState → Campaign → Campaign
write_state s c = record c { state = some s }

abbrev pub state_of : Option Attempt → Option AttemptState
state_of none = none
state_of (some a) = some a.state

abbrev pub may_follow : Option AttemptState → AttemptState → Bool
may_follow none after = true
may_follow (some before) after = is_transition before after

-- The state after an attempt is saved, and the line of the journal.
abbrev pub saved : Text → Attempt → CampaignState → CampaignState
saved key a s = record s { attempts = dict_set key a s.attempts }

abbrev pub save_entry : String → Text → Attempt → CampaignState → Entry
save_entry command key a s = record {
  command = command;
  key = key;
  before = state_of (dict_get key s.attempts);
  after = a.state;
}

abbrev pub with_entry : Entry → CampaignState → Campaign → Campaign
with_entry e s c = record c { state = some s; journal = c.journal ++ e ∷ [] }

-- `_save_attempt`, and what follows with the state that it saved
unfoldable pub save_attempt : String → Text → Attempt → CampaignState → (CampaignState → Run) → Run
save_attempt command key a s next c =
    if may_follow (state_of (dict_get key s.attempts)) a.state
    then next (saved key a s) (with_entry (save_entry command key a s) (saved key a s) c)
    else raise_error c

-- `initialize`, for the matrix with the given digest
unfoldable pub initialize : Text → Run
initialize digest c = elim c.state [
  | some s ↦
      if s.matrix_digest == digest
      then reply exit_ok "IDEMPOTENT" c
      else reply exit_invariant "MATRIX_DIGEST_MISMATCH" c
  | none ↦ reply exit_ok "INITIALIZED" (
      write_state
        (record { matrix_digest = digest; gate_passed = false; attempts = []; examples = [] }) c)
]

-- A required document of the implementation gate: absent, or with its location's provider being
-- "nebius" or not.
pub data Evidence : Type 0 where
  absent : Evidence
  located : Bool → Evidence

abbrev pub is_absent : Evidence → Bool
is_absent absent = true
is_absent (located _) = false

abbrev pub not_nebius : Evidence → Bool
not_nebius absent = true
not_nebius (located nebius) = not nebius

-- `implementation_gate`, with the documents of REQUIRED_GATE_EVIDENCE
unfoldable pub implementation_gate : List Evidence → Run
implementation_gate documents = with_state (λ s c.
    if any is_absent documents
    then reply exit_needs_human "IMPLEMENTATION_EVIDENCE_MISSING"
        (write_state (record s { gate_passed = false }) c)
    else if any not_nebius documents
    then reply exit_invariant "EXECUTION_LOCATION_INVALID"
        (write_state (record s { gate_passed = false }) c)
    else reply exit_ok "IMPLEMENTATION_COMPLETE" (write_state (record s { gate_passed = true }) c))
