-- ===== src/Campaign/Submission/Once.antt =====
-- That `submit` of sim2policy/src/sim2policy/showcase_campaign.py calls the provider once.
use nebius_serverless_challe.Prelude.{
  ℕ, Text, String, ◌≡◌, refl, sym, ◌∙◌, ◌≢◌, inl, inr, true, false, not, ◌&&◌, Option, some, List,
  [], ◌∷◌, arith, ◌==◌,
}
use nebius_serverless_challe.Campaign.State.{
  preflighted, submitted, needs_human, in_states, is_transition, is_active_state, Phase, Attempt,
  CampaignState, Campaign, dict_get,
}
use nebius_serverless_challe.Campaign.Commands.{
  Reply, exit_active, exit_needs_human, exit_invariant, reply, raise_error,
}
use nebius_serverless_challe.Orchestration.Resume.{truthy}
use nebius_serverless_challe.Campaign.Planning.{Matrix, build_plan}
use nebius_serverless_challe.Campaign.Submission.{other_active, submit_attempt, submit}
use nebius_serverless_challe.Campaign.Rules.{
  Ensures, Ensures-if, Ensures-option, Ensures-with_state, Ensures-save_attempt,
}
use nebius_serverless_challe.Campaign.Serialized.{IsSerialized}
use nebius_serverless_challe.Campaign.Submission.Launches.{submit-IsLaunch}

-- What is recorded leaves no room for another call.
not_again :
    (a : Attempt)
    → in_states a.state (submitted ∷ needs_human ∷ []) ≡ true
    → is_transition a.state preflighted ≡ false
not_again a closed = ground arith

module _ (m : Matrix) (example : Text) (seed : ℕ) (phase : Phase) (confirmation : Text)
    (answer adopted : Option Text) (clock : ℕ) where
  abbrev Quiet : Campaign → Reply × Campaign → Type 0
  Quiet c r = r.1 ≡ c

  Quiet-reply :
      (s : CampaignState) (code : ℕ) (reason : String) → Ensures Quiet s (reply code reason)
  Quiet-reply s code reason = record { outcome = λ c here. refl }

  Quiet-submit_attempt :
      (a : Attempt) (s : CampaignState)
      → dict_get (m.attempt_key example seed phase) s.attempts ≡ some a
      → is_transition a.state preflighted ≡ false
      → Ensures Quiet s (submit_attempt m example seed phase confirmation answer adopted clock a s)
  unfolding submit_attempt
  Quiet-submit_attempt a s found closed =
      let key = m.attempt_key example seed phase in
      let a' : Attempt = record a { state = preflighted } in
      Ensures-if s (is_active_state a.state && truthy a.remote_id) (reply exit_active "IDEMPOTENT")
        _ (λ _. Quiet-reply s _ _)
        (λ _.
          Ensures-if s (other_active key s) (reply exit_invariant "ACTIVE_JOB_PRESENT") _
            (λ _. Quiet-reply s _ _)
            (λ _.
              Ensures-option s (build_plan m example seed phase s) raise_error _
                (record { outcome = λ c here. refl })
                (λ p _.
                  Ensures-if s (confirmation == m.plan_digest p && a.plan_digest == m.plan_digest p)
                    _ (reply exit_invariant "PLAN_DIGEST_MISMATCH")
                    (λ _.
                      Ensures-save_attempt "submit" key a' s _ (λ c here. refl)
                        (λ allowed c here.
                          let refused : false ≡ true = sym closed ∙ (rw found at allowed) in cc))
                    (λ _. Quiet-reply s _ _))))

  -- Without a transition to preflighted, a `submit` changes nothing.
  submit-Quiet :
      (c : Campaign) (s : CampaignState) (a : Attempt)
      → c.state ≡ some s
      → dict_get (m.attempt_key example seed phase) s.attempts ≡ some a
      → is_transition a.state preflighted ≡ false
      → (submit m example seed phase confirmation answer adopted clock c).1 ≡ c
  unfolding submit
  submit-Quiet c s a here found closed = Ensures-with_state {R = Quiet} _ c refl (λ t there.
      Ensures-if t (not t.gate_passed) (reply exit_needs_human "IMPLEMENTATION_GATE_REQUIRED") _
        (λ _. Quiet-reply t _ _)
        (λ gate.
          Ensures-option t (dict_get (m.attempt_key example seed phase) t.attempts)
            (reply exit_invariant "PLAN_REQUIRED") _ (Quiet-reply t _ _)
            (λ b found'.
              Quiet-submit_attempt b t found' (let same : a ≡ b = cc in rw (← same) closed))))

-- What one call of `submit` is given: what it confirms, what the provider answers and finds, and the
-- clock.
pub record Call : Type 0 where
  pub confirmation : Text
  pub answer : Option Text
  pub adopted : Option Text
  pub clock : ℕ

-- Calls of `submit` of one attempt, one after the other.
unfoldable pub submit_each : Matrix → Text → ℕ → Phase → List Call → Campaign → Campaign
submit_each m example seed phase [] c = c
submit_each m example seed phase (x ∷ xs) c =
    submit_each m example seed phase xs
      (submit m example seed phase x.confirmation x.answer x.adopted x.clock c).1

submit_each-Quiet :
    (m : Matrix) (example : Text) (seed : ℕ) (phase : Phase) (xs : List Call) (c : Campaign)
    (s : CampaignState) (a : Attempt)
    → c.state ≡ some s
    → dict_get (m.attempt_key example seed phase) s.attempts ≡ some a
    → is_transition a.state preflighted ≡ false
    → submit_each m example seed phase xs c ≡ c
unfolding submit_each
submit_each-Quiet m example seed phase [] c s a here found closed = refl
submit_each-Quiet m example seed phase (x ∷ xs) c s a here found closed =
    rw
      (submit-Quiet m example seed phase x.confirmation x.answer x.adopted x.clock c s a here found
        closed)
      (submit_each-Quiet m example seed phase xs c s a here found closed)

-- In a campaign whose keys are distinct and in which at most one attempt is active, after a `submit`
-- that called the provider no later `submit`s of the same attempt, however many, change the campaign:
-- none calls the provider again, whatever it confirms and whatever the provider answers.
pub submit_once :
    (m : Matrix) (example : Text) (seed : ℕ) (phase : Phase) (x : Call) (xs : List Call)
    (c : Campaign)
    → IsSerialized c
    → (submit_each m example seed phase (x ∷ []) c).submissions ≢ c.submissions
    → submit_each m example seed phase (x ∷ xs) c ≡ submit_each m example seed phase (x ∷ []) c
unfolding submit_each
submit_once m example seed phase x xs c h called =
    elim (submit-IsLaunch m example seed phase x.confirmation x.answer x.adopted x.clock c h) [
      | inl quiet ↦ absurd (called quiet)
      | inr l ↦
          submit_each-Quiet m example seed phase xs _ l.after l.outcome l.leaves l.recorded
            (not_again l.outcome l.closed)
    ]
