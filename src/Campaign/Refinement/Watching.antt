-- ===== src/Campaign/Refinement/Watching.antt =====
-- `watch` and `verify` do effects only.
use nebius_serverless_challe.Prelude.{
  ℕ, ◌+◌, Text, String, ◌≡◌, refl, ◌≢◌, inl, inr, Bool, false, not, ◌||◌, Option, some, List, [],
  ◌∷◌, arith, leb, Bool-cases,
}
use nebius_serverless_challe.Campaign.State.{
  submitted, is_active_state, Phase, TerminalState, Attempt, CampaignState, dict_get,
  active_attempt,
}
use nebius_serverless_challe.Campaign.Commands.{
  exit_ok, exit_active, exit_needs_human, exit_invariant, Run, reply, save_attempt,
}
use nebius_serverless_challe.Orchestration.Resume.{truthy}
use nebius_serverless_challe.Campaign.Planning.{Matrix}
use nebius_serverless_challe.Campaign.Watching.{
  ProviderStatus, Round, Observation, observe, unheard, closes, goes_on, watch_rounds, watch,
}
use nebius_serverless_challe.Campaign.Verification.{
  Result, check_or, is_verified, is_settled, judged, judge, verify,
}
use nebius_serverless_challe.Campaign.Serialized.{Permitted-idle, Permitted-progress}
use nebius_serverless_challe.Campaign.Effects.{as_saving, no_more}
use nebius_serverless_challe.Campaign.Rules.{Ensures-if, Ensures-option}
use nebius_serverless_challe.Campaign.Refinement.{
  Does, DoesAt, DoesAt-reply, DoesAt-of_Does, Does-with_state, DoesAt-save_attempt,
}

-- What a round saves is not a submission.
pub observed_state : (r : Round) (a a' : Attempt) → observe r a ≡ goes_on a' → a'.state ≢ submitted
unfolding observe
observed_state r a a' e submission = ground arith

pub closed_state :
    (r : Round) (a a' : Attempt) (code : ℕ) (reason : String)
    → observe r a ≡ closes a' code reason
    → a'.state ≢ submitted
unfolding observe
closed_state r a a' code reason e submission = ground arith

DoesAt-observation :
    (s : CampaignState) (o : Observation) (m : Run) (f : Attempt → ℕ → String → Run)
    (g : Attempt → Run)
    → DoesAt as_saving s m
    → ((a : Attempt) (code : ℕ) (reason : String)
        → o ≡ closes a code reason
        → DoesAt as_saving s (f a code reason))
    → ((a : Attempt) → o ≡ goes_on a → DoesAt as_saving s (g a))
    → DoesAt as_saving s (λ c. elim o [
      | unheard ↦ m c
      | closes a code reason ↦ f a code reason c
      | goes_on a ↦ g a c
    ])
DoesAt-observation s unheard m f g km kf kg = km
DoesAt-observation s (closes a code reason) m f g km kf kg = kf a code reason refl
DoesAt-observation s (goes_on a) m f g km kf kg = kg a refl

-- A save under a key that is recorded, of a state that is not a submission.
pub DoesAt-save_progress :
    (command : String) (key : Text) (a b : Attempt) (s : CampaignState) (next : CampaignState → Run)
    → dict_get key s.attempts ≡ some b
    → a.state ≢ submitted
    → ((t : CampaignState) → DoesAt as_saving t (next t))
    → DoesAt as_saving s (save_attempt command key a s next)
DoesAt-save_progress command key a b s next found unlike kn =
    DoesAt-save_attempt command key a s next
      (λ _. Permitted-progress key a b s.attempts found unlike) refl (kn _)

Does-watch_rounds :
    (until_terminal : Bool) (max_polls : ℕ) (key : Text) (rounds : List Round) (polls : ℕ)
    → Does as_saving (watch_rounds until_terminal max_polls key rounds polls)
unfolding watch_rounds
Does-watch_rounds until_terminal max_polls key [] polls = record { effects = λ c h. no_more }
Does-watch_rounds until_terminal max_polls key (r ∷ rounds) polls =
    let rest = watch_rounds until_terminal max_polls key rounds (polls + 1) in
    let kept = Does-watch_rounds until_terminal max_polls key rounds (polls + 1) in
    let ends = not until_terminal || leb max_polls (polls + 1) in
    Does-with_state _ (λ s h.
      Ensures-option s (dict_get key s.attempts) (reply exit_invariant "MISSING_REMOTE_ID") _
        (DoesAt-reply s _ _)
        (λ a found.
          Ensures-if s (not (truthy a.remote_id)) (reply exit_invariant "MISSING_REMOTE_ID") _
            (λ _. DoesAt-reply s _ _)
            (λ _.
              DoesAt-observation s (observe r a) _ _ _
                (Ensures-if s ends (reply exit_active "POLL_FAILED_WITHIN_HEARTBEAT") rest
                  (λ _. DoesAt-reply s _ _) (λ _. DoesAt-of_Does s rest kept))
                (λ a' code reason e.
                  DoesAt-save_progress "watch" key a' a s _ found
                    (closed_state r a a' code reason e) (λ t. DoesAt-reply t code reason))
                (λ a' e.
                  DoesAt-save_progress "watch" key a' a s _ found (observed_state r a a' e) (λ t.
                    Ensures-if t ends (reply exit_active "REMOTE_JOB_RUNNING") rest
                      (λ _. DoesAt-reply t _ _) (λ _. DoesAt-of_Does t rest kept))))))

pub Does-watch :
    (until_terminal : Bool) (max_polls : ℕ) (rounds : List Round)
    → Does as_saving (watch until_terminal max_polls rounds)
unfolding watch
Does-watch until_terminal max_polls rounds = Does-with_state _ (λ s h.
    Ensures-option s (active_attempt s) (reply exit_ok "IDEMPOTENT") _ (DoesAt-reply s _ _)
      (λ e _. DoesAt-of_Does s _ (Does-watch_rounds until_terminal max_polls e.0 rounds 0)))

-- What `verify` saves is not active.
judged_idle :
    (a : Attempt) (terminal : TerminalState) (r : Result)
    → is_active_state (judged a terminal r).state ≡ false
unfolding judged
judged_idle a terminal r = ground arith

DoesAt-judge :
    (key : Text) (a : Attempt) (terminal : TerminalState) (r : Result) (s : CampaignState)
    → DoesAt as_saving s (judge key a terminal r s)
unfolding judge
DoesAt-judge key a terminal r s =
    let permitted = Permitted-idle key _ s.attempts (judged_idle a terminal r) in
    elim (Bool-cases (is_verified a terminal r)) [
      | inl passed ↦
          rw passed
            (DoesAt-save_attempt "verify" key _ s _ (λ _. permitted) refl (DoesAt-reply _ _ _))
      | inr missing ↦
          rw missing
            (DoesAt-save_attempt "verify" key _ s _ (λ _. permitted) refl (DoesAt-reply _ _ _))
    ]

pub Does-verify :
    (m : Matrix) (example : Text) (seed : ℕ) (phase : Phase) (polled : Option ProviderStatus)
    (result : Option Result)
    → Does as_saving (verify m example seed phase polled result)
unfolding verify
Does-verify m example seed phase polled result = Does-with_state _ (λ s h.
    let key = m.attempt_key example seed phase in
    Ensures-option s (dict_get key s.attempts) (reply exit_invariant "ATTEMPT_UNKNOWN") _
      (DoesAt-reply s _ _)
      (λ a _.
        Ensures-if s (is_settled a.state) (reply exit_ok "IDEMPOTENT") _ (λ _. DoesAt-reply s _ _)
          (λ _.
            Ensures-option s result (reply exit_needs_human "EVIDENCE_READER_UNAVAILABLE") _
              (DoesAt-reply s _ _)
              (λ r _.
                Ensures-option s a.provider_terminal_state _ _
                  (Ensures-option s polled (reply exit_needs_human "UNKNOWN_PROVIDER_STATE") _
                    (DoesAt-reply s _ _)
                    (λ status _.
                      Ensures-if s (check_or false status.terminal) _
                        (reply exit_active "JOB_STILL_ACTIVE")
                        (λ _. DoesAt-judge key a status.state r s) (λ _. DoesAt-reply s _ _)))
                  (λ terminal _. DoesAt-judge key a terminal r s)))))
