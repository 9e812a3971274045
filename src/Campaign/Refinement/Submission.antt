-- ===== src/Campaign/Refinement/Submission.antt =====
-- `plan` and `submit` do effects only.
use nebius_serverless_challe.Prelude.{
  ℕ, Text, ◌≡◌, refl, inl, inr, true, false, not, ◌&&◌, Option, some, List, arith, ◌==◌,
  Option-cases,
}
use nebius_serverless_challe.Campaign.State.{
  preflighted, needs_human, is_active_state, Phase, submit_failed, Attempt, CampaignState, dict_get,
  dict_set, active_attempt,
}
use nebius_serverless_challe.Campaign.Commands.{
  exit_ok, exit_active, exit_needs_human, exit_invariant, Run, reply, raise_error,
}
use nebius_serverless_challe.Campaign.State.{first_active}
use nebius_serverless_challe.Campaign.State.Dict.{
  count_if-dict_set, dict_get-dict_set, dict_get-first_active, count_if_of_first_active-none,
  first_active_sound,
}
use nebius_serverless_challe.Orchestration.Resume.{truthy}
use nebius_serverless_challe.Campaign.Planning.{
  Matrix, Plan, build_plan, planned_attempt, is_replannable, plan,
}
use nebius_serverless_challe.Campaign.Submission.{
  other_active, call_provider, submitted_attempt, remote_of, submit_remote, submit_attempt, submit,
}
use nebius_serverless_challe.Campaign.Serialized.{
  active_count, IsSerial, Permitted-idle, Permitted-submission,
}
use nebius_serverless_challe.Campaign.Effects.{
  as_saving, as_submission, launch, first, Effect-IsSerialized,
}
use nebius_serverless_challe.Campaign.Commands.{saved}
use nebius_serverless_challe.Campaign.Rules.{Ensures-if, Ensures-option}
use nebius_serverless_challe.Campaign.Refinement.{
  Does, DoesAt, DoesAt-reply, DoesAt-raise, Does-with_state, DoesAt-save_attempt,
}

pub Does-plan :
    (m : Matrix) (example : Text) (seed : ℕ) (phase : Phase)
    → Does as_saving (plan m example seed phase)
unfolding plan planned_attempt
Does-plan m example seed phase = Does-with_state _ (λ s h.
    let key = m.attempt_key example seed phase in
    Ensures-if s (not (s.matrix_digest == m.digest)) (reply exit_invariant "MATRIX_DIGEST_MISMATCH")
      _ (λ _. DoesAt-reply s _ _)
      (λ _.
        Ensures-option s (build_plan m example seed phase s) raise_error _ (DoesAt-raise s) (λ p _.
          Ensures-if s (not (is_replannable (dict_get key s.attempts))) (reply exit_ok "IDEMPOTENT")
            _ (λ _. DoesAt-reply s _ _)
            (λ _.
              DoesAt-save_attempt "plan" key (planned_attempt m p (dict_get key s.attempts)) s _
                (λ _. Permitted-idle key _ s.attempts refl) refl (DoesAt-reply _ _ _)))))

-- The provider's submission, from a preflighted attempt while none is active.
module _ (key : Text) (a : Attempt) (p : Plan) (s : CampaignState) (gate : s.gate_passed ≡ true)
    (idle : active_count s.attempts ≡ 0) (found : dict_get key s.attempts ≡ some a)
    (ready : a.state ≡ preflighted) where
  DoesAt-call_provider :
      (m : Run) → DoesAt as_submission s m → DoesAt as_submission s (λ c. m (call_provider p c))
  DoesAt-call_provider m k = record {
    outcome = λ c here h.
        let e = launch c s key a p.run_id here gate idle found ready in
        first e (k.outcome _ here (Effect-IsSerialized e h));
  }

  DoesAt-submit_remote :
      (answer adopted : Option Text) (clock : ℕ)
      → DoesAt as_submission s (submit_remote key a p answer adopted clock s)
  unfolding submit_remote
  DoesAt-submit_remote answer adopted clock =
      Ensures-option s (remote_of answer adopted) _ _
        (DoesAt-call_provider _ (
          DoesAt-save_attempt "submit" key
            (record a { state = needs_human; reason_code = some submit_failed }) s _
            (λ _. Permitted-idle key _ s.attempts refl) refl (DoesAt-reply _ _ _)))
        (λ remote_id _. DoesAt-call_provider _ (
          DoesAt-save_attempt "submit" key (submitted_attempt a remote_id clock) s _
            (λ _. Permitted-submission key _ a s.attempts found idle) refl (DoesAt-reply _ _ _)))

-- No attempt is active once the key's is set to one that is not, if no other was active.
module _ (key : Text) (a : Attempt) (s : CampaignState) (h : IsSerial s.attempts)
    (idle : is_active_state a.state ≡ false) where
  replaced_active :
      (k : Text) (b : Attempt)
      → first_active s.attempts ≡ some (k, b)
      → k ≡ key
      → active_count (dict_set key a s.attempts) ≡ 0
  replaced_active k b e same =
      let found : dict_get key s.attempts ≡ some b =
        rw (← same) (dict_get-first_active k b s.attempts h.unique e) in
      let count = count_if-dict_set (λ (b : Attempt). is_active_state b.state) key a s.attempts in
      omega (arith, rw (found, first_active_sound k b s.attempts e, idle) at count, h.single)

  pub active_count-other_active :
      other_active key s ≡ false → active_count (dict_set key a s.attempts) ≡ 0
  unfolding active_attempt
  active_count-other_active none_other = elim (Option-cases (first_active s.attempts)) [
    | inl none_active ↦
        let count = count_if-dict_set (λ (b : Attempt). is_active_state b.state) key a s.attempts in
        omega (arith, rw idle at count, count_if_of_first_active-none s.attempts none_active)
    | inr ((k, b), e) ↦ replaced_active k b e (ground arith)
  ]

DoesAt-submit_attempt :
    (m : Matrix) (example : Text) (seed : ℕ) (phase : Phase) (confirmation : Text)
    (answer found : Option Text) (clock : ℕ) (a : Attempt) (s : CampaignState)
    → s.gate_passed ≡ true
    → IsSerial s.attempts
    → DoesAt as_submission s
        (submit_attempt m example seed phase confirmation answer found clock a s)
unfolding submit_attempt
DoesAt-submit_attempt m example seed phase confirmation answer found clock a s gate h =
    let key = m.attempt_key example seed phase in
    let a' : Attempt = record a { state = preflighted } in
    Ensures-if s (is_active_state a.state && truthy a.remote_id) (reply exit_active "IDEMPOTENT") _
      (λ _. DoesAt-reply s _ _)
      (λ _.
        Ensures-if s (other_active key s) (reply exit_invariant "ACTIVE_JOB_PRESENT") _
          (λ _. DoesAt-reply s _ _)
          (λ none_other.
            Ensures-option s (build_plan m example seed phase s) raise_error _ (DoesAt-raise s)
              (λ p _.
                Ensures-if s (confirmation == m.plan_digest p && a.plan_digest == m.plan_digest p) _
                  (reply exit_invariant "PLAN_DIGEST_MISMATCH")
                  (λ _.
                    DoesAt-save_attempt "submit" key a' s _
                      (λ _. Permitted-idle key a' s.attempts refl) refl
                      (DoesAt-submit_remote key a' p (saved key a' s) gate
                        (active_count-other_active key a' s h refl none_other)
                        (dict_get-dict_set_self key a' s.attempts) refl answer found clock))
                  (λ _. DoesAt-reply s _ _))))
  where
    dict_get-dict_set_self :
        (k : Text) (b : Attempt) (d : List (Text × Attempt)) → dict_get k (dict_set k b d) ≡ some b
    dict_get-dict_set_self k b d = ground (arith, dict_get-dict_set k k b d)

pub Does-submit :
    (m : Matrix) (example : Text) (seed : ℕ) (phase : Phase) (confirmation : Text)
    (answer found : Option Text) (clock : ℕ)
    → Does as_submission (submit m example seed phase confirmation answer found clock)
unfolding submit
Does-submit m example seed phase confirmation answer found clock = Does-with_state _ (λ s h.
    Ensures-if s (not s.gate_passed) (reply exit_needs_human "IMPLEMENTATION_GATE_REQUIRED") _
      (λ _. DoesAt-reply s _ _)
      (λ gate.
        Ensures-option s (dict_get (m.attempt_key example seed phase) s.attempts)
          (reply exit_invariant "PLAN_REQUIRED") _ (DoesAt-reply s _ _)
          (λ a _.
            DoesAt-submit_attempt m example seed phase confirmation answer found clock a s
              (ground arith) h)))
