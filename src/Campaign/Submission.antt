-- ===== src/Campaign/Submission.antt =====
-- `submit` of sim2policy/src/sim2policy/showcase_campaign.py.
pub mod Launches
pub mod Once
use nebius_serverless_challe.Prelude.{
  ℕ, ◌+◌, Text, Bool, false, not, ◌&&◌, Option, none, some, [], ◌∷◌, ◌++◌, ◌==◌, if◌then◌else◌,
}
use nebius_serverless_challe.Orchestration.Resume.{truthy}
use nebius_serverless_challe.Campaign.State.{
  preflighted, submitted, needs_human, is_active_state, Phase, submit_failed, Attempt,
  CampaignState, Campaign, dict_get, active_attempt,
}
use nebius_serverless_challe.Campaign.Commands.{
  exit_ok, exit_active, exit_needs_human, exit_invariant, Run, reply, raise_error, with_state,
  save_attempt,
}
use nebius_serverless_challe.Campaign.Planning.{Matrix, Plan, build_plan}

-- Another attempt than the key's is active.
abbrev pub other_active : Text → CampaignState → Bool
other_active key s = elim (active_attempt s) [ none ↦ false | some (k, a) ↦ not (k == key) ]

-- `provider.submit`, which is recorded
abbrev pub call_provider : Plan → Campaign → Campaign
call_provider p c = record c { submissions = c.submissions ++ p.run_id ∷ [] }

abbrev pub submitted_attempt : Attempt → Text → ℕ → Attempt
submitted_attempt a remote_id clock = record a {
  state = submitted;
  remote_id = some remote_id;
  heartbeat_at = clock;
}

-- `_adopt_existing`: the id of the run's remote job, or `none` if there is none or the search fails
abbrev pub adopt_existing : Option Text → Option Text
adopt_existing found = if truthy found then found else none

-- the remote id that is recorded: the provider's, or that of an adopted job
abbrev pub remote_of : Option Text → Option Text → Option Text
remote_of none found = adopt_existing found
remote_of (some remote_id) found = some remote_id

-- the calls from the provider's submission on; `answer` is `none` for a `ProviderError`, and `found`
-- is what `find_by_name` gives. The process runs to the save: a crash before it, which
-- leaves a call that is not recorded, is left out.
unfoldable pub submit_remote :
    Text → Attempt → Plan → Option Text → Option Text → ℕ → CampaignState → Run
submit_remote key a p answer found clock s c = elim (remote_of answer found) [
  | some remote_id ↦
      save_attempt "submit" key (submitted_attempt a remote_id clock) s
        (λ s'. reply exit_ok "REMOTE_ID_RECORDED") (call_provider p c)
  | none ↦
      save_attempt "submit" key (record a { state = needs_human; reason_code = some submit_failed })
        s (λ s'. reply exit_needs_human "SUBMIT_FAILED") (call_provider p c)
]

unfoldable pub submit_attempt :
    Matrix → Text → ℕ → Phase → Text → Option Text → Option Text → ℕ → Attempt → CampaignState → Run
submit_attempt m example seed phase confirmation answer found clock a s c =
    let key = m.attempt_key example seed phase in
    let a' : Attempt = record a { state = preflighted } in
    if is_active_state a.state && truthy a.remote_id
    then reply exit_active "IDEMPOTENT" c
    else if other_active key s
    then reply exit_invariant "ACTIVE_JOB_PRESENT" c
    else elim (build_plan m example seed phase s) [
      | none ↦ raise_error c
      | some p ↦
          if confirmation == m.plan_digest p && a.plan_digest == m.plan_digest p
          then save_attempt "submit" key a' s (λ s'. submit_remote key a' p answer found clock s') c
          else reply exit_invariant "PLAN_DIGEST_MISMATCH" c
    ]

unfoldable pub submit : Matrix → Text → ℕ → Phase → Text → Option Text → Option Text → ℕ → Run
submit m example seed phase confirmation answer found clock = with_state (λ s c.
    if not s.gate_passed
    then reply exit_needs_human "IMPLEMENTATION_GATE_REQUIRED" c
    else elim (dict_get (m.attempt_key example seed phase) s.attempts) [
      | none ↦ reply exit_invariant "PLAN_REQUIRED" c
      | some a ↦ submit_attempt m example seed phase confirmation answer found clock a s c
    ])
