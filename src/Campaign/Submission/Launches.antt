-- ===== src/Campaign/Submission/Launches.antt =====
-- When `submit` of sim2policy/src/sim2policy/showcase_campaign.py calls the provider.
use nebius_serverless_challe.Prelude.{
  ℕ, Text, String, ◌≡◌, refl, ◌⊎◌, inl, inr, true, false, not, ◌&&◌, Option, none, some, List, [],
  ◌∷◌, ◌++◌, arith, ◌==◌,
}
use nebius_serverless_challe.Campaign.State.{
  AttemptState, preflighted, submitted, needs_human, in_states, is_transition, is_active_state,
  Phase, submit_failed, Attempt, CampaignState, Campaign, dict_get, dict_set,
}
use nebius_serverless_challe.Campaign.Commands.{
  Reply, exit_active, exit_needs_human, exit_invariant, reply, raise_error, save_attempt,
}
use nebius_serverless_challe.Orchestration.Resume.{truthy}
use nebius_serverless_challe.Campaign.State.Dict.{count_if-dict_set, dict_get-dict_set}
use nebius_serverless_challe.Campaign.Commands.{saved, save_entry, with_entry}
use nebius_serverless_challe.Campaign.Planning.{Matrix, Plan, build_plan}
use nebius_serverless_challe.Campaign.Submission.{
  other_active, remote_of, submitted_attempt, submit_remote, submit_attempt, submit,
}
use nebius_serverless_challe.Campaign.Rules.{
  Ensures, Ensures-if, Ensures-option, Ensures-with_state, Ensures-save_attempt,
}
use nebius_serverless_challe.Campaign.Serialized.{active_count, IsSerial, IsSerialized}
use nebius_serverless_challe.Campaign.Refinement.Submission.{active_count-other_active}

-- A call of the provider's `submit` for the attempt of an example, a seed and a phase: the gate has
-- passed, the attempt is recorded with the plan that the matrix gives now, the operator confirms its
-- digest, no attempt of the campaign is active, the job is that of the plan, and afterwards the
-- attempt is submitted or waits for a human.
pub record IsLaunch (m : Matrix) (example : Text) (seed : ℕ) (phase : Phase) (confirmation : Text)
    (c d : Campaign) : Type 0 where
  pub before : CampaignState
  pub attempt : Attempt
  pub reviewed : Plan
  pub reads : c.state ≡ some before
  pub gate : before.gate_passed ≡ true
  pub found : dict_get (m.attempt_key example seed phase) before.attempts ≡ some attempt
  pub built : build_plan m example seed phase before ≡ some reviewed
  pub confirmed : confirmation ≡ m.plan_digest reviewed
  pub unchanged : attempt.plan_digest ≡ m.plan_digest reviewed
  pub idle : active_count before.attempts ≡ 0
  pub called : d.submissions ≡ c.submissions ++ reviewed.run_id ∷ []
  pub after : CampaignState
  pub outcome : Attempt
  pub leaves : d.state ≡ some after
  pub recorded : dict_get (m.attempt_key example seed phase) after.attempts ≡ some outcome
  pub closed : in_states outcome.state (submitted ∷ needs_human ∷ []) ≡ true

-- From the call on, the job is one more, and what is saved is recorded.
module _ (key : Text) (a : Attempt) (p : Plan) (answer adopted : Option Text) (clock : ℕ)
    (s : CampaignState) (c : Campaign) where
  submissions-submit_remote :
      (submit_remote key a p answer adopted clock s c).1.submissions
      ≡ c.submissions ++ p.run_id ∷ []
  unfolding submit_remote save_attempt
  submissions-submit_remote = ground arith

  recorded_outcome : Attempt
  recorded_outcome = elim (remote_of answer adopted) [
    | none ↦ record a { state = needs_human; reason_code = some submit_failed }
    | some remote_id ↦ submitted_attempt a remote_id clock
  ]

  state-submit_remote :
      dict_get key s.attempts ≡ some a
      → a.state ≡ preflighted
      → (submit_remote key a p answer adopted clock s c).1.state
        ≡ some (saved key recorded_outcome s)
  unfolding submit_remote save_attempt recorded_outcome
  state-submit_remote found ready = ground arith

  recorded_outcome_state : in_states recorded_outcome.state (submitted ∷ needs_human ∷ []) ≡ true
  unfolding recorded_outcome
  recorded_outcome_state = ground arith

-- An attempt that may be preflighted is not active.
idle_of_ready : (b : AttemptState) → is_transition b preflighted ≡ true → is_active_state b ≡ false
idle_of_ready b ready = ground arith

module _ (m : Matrix) (example : Text) (seed : ℕ) (phase : Phase) (confirmation : Text)
    (answer adopted : Option Text) (clock : ℕ) where
  -- what is saved before the call
  preflight_attempt : Attempt → Attempt
  preflight_attempt a = record a { state = preflighted }

  none_active :
      (a : Attempt) (s : CampaignState)
      → IsSerial s.attempts
      → other_active (m.attempt_key example seed phase) s ≡ false
      → dict_get (m.attempt_key example seed phase) s.attempts ≡ some a
      → is_transition a.state preflighted ≡ true
      → active_count s.attempts ≡ 0
  unfolding preflight_attempt
  none_active a s h none_other found ready =
      let key = m.attempt_key example seed phase in
      let count =
        count_if-dict_set (λ (b : Attempt). is_active_state b.state) key (preflight_attempt a)
          s.attempts in
      omega (
        arith,
        rw (found, idle_of_ready a.state ready) at count,
        active_count-other_active key (preflight_attempt a) s h refl none_other,
      )

  abbrev Outcome : Campaign → Reply × Campaign → Type 0
  Outcome c r = (r.1.submissions ≡ c.submissions) ⊎ IsLaunch m example seed phase confirmation c r.1

  IsLaunch-after_save :
      (a : Attempt) (p : Plan) (s : CampaignState)
      → IsSerial s.attempts
      → s.gate_passed ≡ true
      → dict_get (m.attempt_key example seed phase) s.attempts ≡ some a
      → other_active (m.attempt_key example seed phase) s ≡ false
      → build_plan m example seed phase s ≡ some p
      → confirmation ≡ m.plan_digest p
      → a.plan_digest ≡ m.plan_digest p
      → is_transition a.state preflighted ≡ true
      → (c : Campaign) → c.state ≡ some s
      → IsLaunch m example seed phase confirmation c
          (submit_remote
            (m.attempt_key example seed phase)
            (record a { state = preflighted })
            p
            answer
            adopted
            clock
            (saved (m.attempt_key example seed phase) (record a { state = preflighted }) s)
            (with_entry
              (save_entry "submit"
                (m.attempt_key example seed phase)
                (record a { state = preflighted })
                s)
              (saved (m.attempt_key example seed phase) (record a { state = preflighted }) s)
              c)).1
  IsLaunch-after_save a p s h gate found none_other built confirmed unchanged ready c here =
      let key = m.attempt_key example seed phase in
      let a' : Attempt = record a { state = preflighted } in
      let s' = saved key a' s in
      let d = with_entry (save_entry "submit" key a' s) s' c in
      record {
        before = s;
        attempt = a;
        reviewed = p;
        reads = here;
        gate = gate;
        found = found;
        built = built;
        confirmed = confirmed;
        unchanged = unchanged;
        idle = none_active a s h none_other found ready;
        called = submissions-submit_remote key a' p answer adopted clock s' d;
        after = saved key (recorded_outcome key a' p answer adopted clock s' d) s';
        outcome = recorded_outcome key a' p answer adopted clock s' d;
        leaves =
            state-submit_remote key a' p answer adopted clock s' d (read key a' s.attempts) refl;
        recorded = read key _ s'.attempts;
        closed = recorded_outcome_state key a' p answer adopted clock s' d;
      }
    where
      read :
          (k : Text) (b : Attempt) (d : List (Text × Attempt))
          → dict_get k (dict_set k b d) ≡ some b
      read k b d = ground (arith, dict_get-dict_set k k b d)

  Outcome-reply :
      (s : CampaignState) (code : ℕ) (reason : String) → Ensures Outcome s (reply code reason)
  Outcome-reply s code reason = record { outcome = λ c here. inl refl }

  Outcome-submit_attempt :
      (a : Attempt) (s : CampaignState)
      → IsSerial s.attempts
      → s.gate_passed ≡ true
      → dict_get (m.attempt_key example seed phase) s.attempts ≡ some a
      → Ensures Outcome s
          (submit_attempt m example seed phase confirmation answer adopted clock a s)
  unfolding submit_attempt
  Outcome-submit_attempt a s h gate found =
      let key = m.attempt_key example seed phase in
      let a' : Attempt = record a { state = preflighted } in
      Ensures-if s (is_active_state a.state && truthy a.remote_id) (reply exit_active "IDEMPOTENT")
        _ (λ _. Outcome-reply s _ _)
        (λ _.
          Ensures-if s (other_active key s) (reply exit_invariant "ACTIVE_JOB_PRESENT") _
            (λ _. Outcome-reply s _ _)
            (λ none_other.
              Ensures-option s (build_plan m example seed phase s) raise_error _
                (record { outcome = λ c here. inl refl })
                (λ p built.
                  Ensures-if s (confirmation == m.plan_digest p && a.plan_digest == m.plan_digest p)
                    _ (reply exit_invariant "PLAN_DIGEST_MISMATCH")
                    (λ digests.
                      Ensures-save_attempt "submit" key a' s _ (λ c here. inl refl)
                        (λ allowed c here. inr (
                          IsLaunch-after_save a p s h gate found none_other built (ground arith)
                            (ground arith) (rw found at allowed) c here)))
                    (λ _. Outcome-reply s _ _))))

  -- In a campaign whose keys are distinct and in which at most one attempt is active, `submit` calls
  -- the provider's `submit` not at all, or once: then the gate has passed, the recorded plan of the
  -- attempt is the plan that the matrix gives now and that the operator confirmed, no attempt is
  -- active, the job is that of the plan, and the attempt is left submitted or waiting for a human.
  pub submit-IsLaunch :
      (c : Campaign)
      → IsSerialized c
      → ((submit m example seed phase confirmation answer adopted clock c).1.submissions
          ≡ c.submissions)
        ⊎ IsLaunch m example seed phase confirmation c
            (submit m example seed phase confirmation answer adopted clock c).1
  unfolding submit
  submit-IsLaunch c h = Ensures-with_state {R = Outcome} _ c (inl refl) (λ s here.
      Ensures-if s (not s.gate_passed) (reply exit_needs_human "IMPLEMENTATION_GATE_REQUIRED") _
        (λ _. Outcome-reply s _ _)
        (λ gate.
          Ensures-option s (dict_get (m.attempt_key example seed phase) s.attempts)
            (reply exit_invariant "PLAN_REQUIRED") _ (Outcome-reply s _ _)
            (λ a found. Outcome-submit_attempt a s (h.at s here) (ground arith) found)))
