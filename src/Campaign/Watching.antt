-- ===== src/Campaign/Watching.antt =====
-- `watch` of sim2policy/src/sim2policy/showcase_campaign.py, on a list of rounds. A list that ends is
-- an interruption.
pub mod Ends
pub mod Terminal
use nebius_serverless_challe.Prelude.{
  ℕ, ◌+◌, ◌-◌, Text, String, Bool, true, false, not, ◌||◌, Option, none, some, List, [], ◌∷◌, ltb,
  leb, if◌then◌else◌,
}
use nebius_serverless_challe.Orchestration.Resume.{truthy}
use nebius_serverless_challe.Campaign.State.{
  submitted, running, finalizing, needs_human, state_eq, TerminalState, Reason, heartbeat_lost,
  unknown_provider_state, Attempt, dict_get, active_attempt,
}
use nebius_serverless_challe.Campaign.Commands.{
  interrupted, exit_ok, exit_active, exit_needs_human, exit_invariant, Run, reply, with_state,
  save_attempt,
}

-- A provider's status: whether the state is terminal, `none` being a state that it cannot classify.
pub record ProviderStatus : Type 0 where
  pub terminal : Option Bool
  pub state : TerminalState

-- One round: the provider's answer, `none` for a `ProviderError`, and the clock.
pub record Round : Type 0 where
  pub status : Option ProviderStatus
  pub clock : ℕ

-- HEARTBEAT_TIMEOUT_SECONDS
abbrev pub heartbeat_timeout : ℕ
heartbeat_timeout = 300

abbrev pub stopped : Attempt → Reason → Attempt
stopped a reason = record a { state = needs_human; reason_code = some reason }

abbrev pub watched : Attempt → ℕ → Attempt
watched a clock = record a { heartbeat_at = clock }

-- the attempt of a job that runs
abbrev pub progressing : Attempt → ℕ → Attempt
progressing a clock = record (watched a clock) {
  state = if state_eq a.state submitted then running else a.state;
}

-- A round's outcome: the attempt that it saves, and the reply, or `none` if the loop goes on.
pub data Observation : Type 0 where
  unheard : Observation
  closes : Attempt → ℕ → String → Observation
  goes_on : Attempt → Observation

unfoldable pub observe : Round → Attempt → Observation
observe r a = elim r.status [
  | none ↦
      if ltb heartbeat_timeout (r.clock - a.heartbeat_at)
      then closes (stopped a heartbeat_lost) exit_needs_human "HEARTBEAT_LOST"
      else unheard
  | some status ↦ elim status.terminal [
    | none ↦
        closes (stopped (watched a r.clock) unknown_provider_state) exit_needs_human
          "UNKNOWN_PROVIDER_STATE"
    | some true ↦
        closes
          (record (watched a r.clock) {
            state = finalizing;
            provider_terminal_state = some status.state;
          })
          exit_ok "TERMINAL"
    | some false ↦ goes_on (progressing a r.clock)
  ]
]

-- The reply for an end that is found carries the decision, without the provider's state.
unfoldable pub watch_rounds : Bool → ℕ → Text → List Round → ℕ → Run
watch_rounds until_terminal max_polls key [] polls c = (interrupted, c)
watch_rounds until_terminal max_polls key (r ∷ rounds) polls c =
    let rest = watch_rounds until_terminal max_polls key rounds (polls + 1) in
    let ends = not until_terminal || leb max_polls (polls + 1) in
    with_state
      (λ s c. elim (dict_get key s.attempts) [
        | none ↦ reply exit_invariant "MISSING_REMOTE_ID" c
        | some a ↦
            if not (truthy a.remote_id)
            then reply exit_invariant "MISSING_REMOTE_ID" c
            else elim (observe r a) [
              | unheard ↦
                  if ends then reply exit_active "POLL_FAILED_WITHIN_HEARTBEAT" c else rest c
              | closes a' code reason ↦ save_attempt "watch" key a' s (λ s'. reply code reason) c
              | goes_on a' ↦
                  save_attempt "watch" key a' s
                    (λ s' c'. if ends then reply exit_active "REMOTE_JOB_RUNNING" c' else rest c') c
            ]
      ])
      c

unfoldable pub watch : Bool → ℕ → List Round → Run
watch until_terminal max_polls rounds = with_state (λ s c. elim (active_attempt s) [
  | none ↦ reply exit_ok "IDEMPOTENT" c
  | some (key, a) ↦ watch_rounds until_terminal max_polls key rounds 0 c
])
