-- ===== src/Campaign/Watching/Ends.antt =====
-- That `watch` of sim2policy/src/sim2policy/showcase_campaign.py ends.
use nebius_serverless_challe.Prelude.{
  ℕ, ◌+◌, ◌≤◌, ◌<◌, Text, String, ◌≡◌, refl, ◌≢◌, Bool, true, false, not, ◌||◌, List, [], ◌∷◌,
  arith, leb, if◌then◌else◌, length,
}
use nebius_serverless_challe.Campaign.State.{
  Attempt, CampaignState, Campaign, dict_get, active_attempt,
}
use nebius_serverless_challe.Campaign.Commands.{
  Reply, interrupted, exit_ok, exit_active, exit_invariant, Run, reply,
}
use nebius_serverless_challe.Orchestration.Resume.{truthy}
use nebius_serverless_challe.Campaign.Commands.{saved}
use nebius_serverless_challe.Campaign.Watching.{
  Round, Observation, unheard, closes, goes_on, observe, watch_rounds, watch,
}
use nebius_serverless_challe.Campaign.Rules.{
  Ensures, Ensures-if, Ensures-option, Ensures-with_state, Ensures-save_attempt,
}

record Ends (c : Campaign) (r : Reply × Campaign) : Type 0 where
  replies : r.0 ≢ interrupted

Ends-reply : (s : CampaignState) (code : ℕ) (reason : String) → Ensures Ends s (reply code reason)
Ends-reply s code reason = record { outcome = λ c here. record { replies = λ e. ground arith } }

Ends-observation :
    (s : CampaignState) (o : Observation) (m : Run) (f : Attempt → ℕ → String → Run)
    (g : Attempt → Run)
    → Ensures Ends s m
    → ((a : Attempt) (code : ℕ) (reason : String) → Ensures Ends s (f a code reason))
    → ((a : Attempt) → Ensures Ends s (g a))
    → Ensures Ends s (λ c. elim o [
      | unheard ↦ m c
      | closes a code reason ↦ f a code reason c
      | goes_on a ↦ g a c
    ])
Ends-observation s unheard m f g km kf kg = km
Ends-observation s (closes a code reason) m f g km kf kg = kf a code reason
Ends-observation s (goes_on a) m f g km kf kg = kg a

watch_rounds-Ends :
    (until_terminal : Bool) (max_polls : ℕ) (key : Text) (rounds : List Round) (polls : ℕ)
    (c : Campaign)
    → 0 < length rounds
    → (until_terminal ≡ true → max_polls ≤ polls + length rounds)
    → Ends c (watch_rounds until_terminal max_polls key rounds polls c)
unfolding watch_rounds
watch_rounds-Ends until_terminal max_polls key [] polls c some_round enough = absurd (omega arith)
watch_rounds-Ends until_terminal max_polls key (r ∷ rounds) polls c some_round enough =
    let rest = watch_rounds until_terminal max_polls key rounds (polls + 1) in
    let ends = not until_terminal || leb max_polls (polls + 1) in
    let on = λ (d : Campaign) (h : ends ≡ false).
      let waits : until_terminal ≡ true = ground arith in
      let bound = enough waits in
      watch_rounds-Ends until_terminal max_polls key rounds (polls + 1) d (ground arith)
        (λ _. omega arith) in
    Ensures-with_state {R = Ends} _ c (record { replies = λ e. ground arith })
      (λ s here.
        Ensures-option s (dict_get key s.attempts) (reply exit_invariant "MISSING_REMOTE_ID") _
          (Ends-reply s _ _)
          (λ a found.
            Ensures-if s (not (truthy a.remote_id)) (reply exit_invariant "MISSING_REMOTE_ID") _
              (λ _. Ends-reply s _ _)
              (λ _.
                Ends-observation s (observe r a) _ _ _
                  (Ensures-if s ends (reply exit_active "POLL_FAILED_WITHIN_HEARTBEAT") rest
                    (λ _. Ends-reply s _ _) (λ h. record { outcome = λ d _. on d h }))
                  (λ a' code reason.
                    Ensures-save_attempt "watch" key a' s (λ s'. reply code reason)
                      (λ d _. record { replies = λ e. ground arith })
                      (λ _ d _. record { replies = λ e. ground arith }))
                  (λ a'.
                    Ensures-save_attempt "watch" key a' s
                      (λ s' c'. if ends then reply exit_active "REMOTE_JOB_RUNNING" c' else rest c')
                      (λ d _. record { replies = λ e. ground arith })
                      (λ _ d there.
                        let after =
                          Ensures-if (saved key a' s) ends (reply exit_active "REMOTE_JOB_RUNNING")
                            rest (λ _. Ends-reply (saved key a' s) exit_active "REMOTE_JOB_RUNNING")
                            (λ h. record { outcome = λ d' _. on d' h }) in
                        record { replies = (after.outcome _ refl).replies })))))

-- `watch` replies or raises within its greatest number of polls, and after one poll where it does not
-- wait for the end: more rounds than that are never asked for.
pub watch_ends :
    (until_terminal : Bool) (max_polls : ℕ) (rounds : List Round) (c : Campaign)
    → 0 < length rounds
    → (until_terminal ≡ true → max_polls ≤ length rounds)
    → (watch until_terminal max_polls rounds c).0 ≢ interrupted
unfolding watch
watch_ends until_terminal max_polls rounds c some_round enough =
    (Ensures-with_state {R = Ends} _ c (record { replies = λ e. ground arith })
      (λ s here.
        Ensures-option s (active_attempt s) (reply exit_ok "IDEMPOTENT") _ (Ends-reply s _ _)
          (λ e _. record {
            outcome = λ d _.
                watch_rounds-Ends until_terminal max_polls e.0 rounds 0 d some_round
                  (λ w. omega (arith, enough w));
          }))).replies
