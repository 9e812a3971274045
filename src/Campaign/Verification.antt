-- ===== src/Campaign/Verification.antt =====
-- `verify` of sim2policy/src/sim2policy/showcase_campaign.py, and `classify_failure` of
-- campaign_verify.py.
pub mod Evidence
use nebius_serverless_challe.Prelude.{
  ℕ, Text, Bool, true, false, not, ◌&&◌, ◌||◌, Option, none, some, [], ◌∷◌, if◌then◌else◌,
}
use nebius_serverless_challe.Campaign.State.{
  AttemptState, verified, accepted, rejected, needs_human, cleaned, in_states, Phase, TerminalState,
  completed, cancelled, failed, Reason, heartbeat_lost, unknown_provider_state, evidence_verified,
  failed_before_checkpoint, finalization_only_failure, artifact_checksum_failure, Attempt,
  CampaignState, dict_get,
}
use nebius_serverless_challe.Campaign.Commands.{
  exit_ok, exit_active, exit_rejected, exit_needs_human, exit_invariant, Run, reply, with_state,
  save_attempt,
}
use nebius_serverless_challe.Campaign.Planning.{Matrix}
use nebius_serverless_challe.Campaign.Watching.{ProviderStatus}

-- The result of `verify_run_evidence`, with the digest of its document and the checks that
-- `classify_failure` reads; a check that was not reached is `none`.
pub record Result : Type 0 where
  pub digest : Text
  pub passed : Bool
  pub selected_checkpoint : Option Bool
  pub manifest_readable : Option Bool
  pub required_artifacts : Option Bool
  pub acceptance_recorded : Option Bool

-- `checks.get(name, default)`
abbrev pub check_or : Bool → Option Bool → Bool
check_or default none = default
check_or default (some ok) = ok

unfoldable pub classify_failure : Result → Bool → Reason
classify_failure r provider_failed =
    let durable = check_or false r.selected_checkpoint || check_or false r.manifest_readable in
    if r.passed
    then evidence_verified
    else if provider_failed && not durable
    then failed_before_checkpoint
    else if durable && not (check_or false r.required_artifacts)
    then finalization_only_failure
    else if not (check_or true r.acceptance_recorded)
    then finalization_only_failure
    else artifact_checksum_failure

abbrev pub is_completed : TerminalState → Bool
is_completed completed = true
is_completed _ = false

abbrev pub is_cancelled : TerminalState → Bool
is_cancelled cancelled = true
is_cancelled _ = false

abbrev pub is_failed : TerminalState → Bool
is_failed failed = true
is_failed _ = false

-- `reason_code in {"HEARTBEAT_LOST", "UNKNOWN_PROVIDER_STATE"}`
abbrev pub watchdog_stop : Option Reason → Bool
watchdog_stop (some heartbeat_lost) = true
watchdog_stop (some unknown_provider_state) = true
watchdog_stop _ = false

-- What the evidence and the provider's terminal state together prove.
unfoldable pub is_verified : Attempt → TerminalState → Result → Bool
is_verified a terminal r =
    r.passed
    && (is_completed terminal
        || (is_cancelled terminal && watchdog_stop a.reason_code)
        || is_failed terminal)

abbrev pub is_settled : AttemptState → Bool
is_settled s = in_states s (verified ∷ accepted ∷ rejected ∷ cleaned ∷ [])

-- The attempt that is saved.
unfoldable pub judged : Attempt → TerminalState → Result → Attempt
judged a terminal r =
    let a' : Attempt = record a {
      evidence_digest = some r.digest;
      provider_terminal_state = some terminal;
    } in
    if is_verified a terminal r then record a' { state = verified } else record a' {
      state = needs_human;
      reason_code = some (classify_failure r (not (is_completed terminal)));
    }

-- the rest of `verify`; the reply names the decision, since the reason code depends on the end
unfoldable pub judge : Text → Attempt → TerminalState → Result → CampaignState → Run
judge key a terminal r s =
    if is_verified a terminal r
    then save_attempt "verify" key (judged a terminal r) s (λ s'. reply exit_ok "VERIFIED")
    else save_attempt "verify" key (judged a terminal r) s
        (λ s'. reply exit_rejected "INCOMPLETE_EVIDENCE")

-- `polled` is the provider's answer, `none` for a `ProviderError`, and `result` is `none` without a
-- reader of the evidence.
unfoldable pub verify : Matrix → Text → ℕ → Phase → Option ProviderStatus → Option Result → Run
verify m example seed phase polled result = with_state (λ s c.
    let key = m.attempt_key example seed phase in
    elim (dict_get key s.attempts) [
      | none ↦ reply exit_invariant "ATTEMPT_UNKNOWN" c
      | some a ↦ if is_settled a.state then reply exit_ok "IDEMPOTENT" c else elim result [
        | none ↦ reply exit_needs_human "EVIDENCE_READER_UNAVAILABLE" c
        | some r ↦ elim a.provider_terminal_state [
          | some terminal ↦ judge key a terminal r s c
          | none ↦ elim polled [
            | none ↦ reply exit_needs_human "UNKNOWN_PROVIDER_STATE" c
            | some status ↦
                if check_or false status.terminal
                then judge key a status.state r s c
                else reply exit_active "JOB_STILL_ACTIVE" c
          ]
        ]
      ]
    ])
