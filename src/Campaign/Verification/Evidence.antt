-- ===== src/Campaign/Verification/Evidence.antt =====
-- What `verify` of sim2policy/src/sim2policy/showcase_campaign.py takes to call an attempt verified.
use nebius_serverless_challe.Prelude.{
  ℕ, Text, String, ◌≡◌, refl, ◌≢◌, ◌⊎◌, inl, inr, true, false, Option, some, [], ◌∷◌, arith,
  Bool-cases,
}
use nebius_serverless_challe.Campaign.State.{
  verified, accepted, rejected, cleaned, in_states, Phase, TerminalState, completed, cancelled,
  failed, other, Attempt, CampaignState, Campaign, dict_get,
}
use nebius_serverless_challe.Campaign.Commands.{
  Reply, replied, exit_ok, exit_active, exit_rejected, exit_needs_human, exit_invariant, reply,
}
use nebius_serverless_challe.Campaign.State.Dict.{dict_get-dict_set}
use nebius_serverless_challe.Campaign.Commands.{saved}
use nebius_serverless_challe.Campaign.Planning.{Matrix}
use nebius_serverless_challe.Campaign.Watching.{ProviderStatus}
use nebius_serverless_challe.Campaign.Verification.{
  Result, check_or, is_completed, is_cancelled, is_failed, watchdog_stop, is_verified, is_settled,
  judged, judge, verify,
}
use nebius_serverless_challe.Campaign.Rules.{
  Ensures, Ensures-if, Ensures-option, Ensures-with_state, Ensures-save_attempt,
}

-- The reader found complete evidence of the attempt under a key, which was not settled before; the
-- provider's end of the job was recorded, or is reported now; the job completed, or failed, or was
-- cancelled after the campaign's own watchdog stopped waiting for it; and the attempt is recorded as
-- verified, with the digest of the evidence.
pub record HasEvidence (key : Text) (polled : Option ProviderStatus) (result : Option Result)
    (c d : Campaign) : Type 0 where
  pub before : CampaignState
  pub attempt : Attempt
  pub evidence : Result
  pub terminal : TerminalState
  pub reads : c.state ≡ some before
  pub found : dict_get key before.attempts ≡ some attempt
  pub unsettled : in_states attempt.state (verified ∷ accepted ∷ rejected ∷ cleaned ∷ []) ≡ false
  pub read : result ≡ some evidence
  pub complete_evidence : evidence.passed ≡ true
  pub ended :
      (attempt.provider_terminal_state ≡ some terminal)
      ⊎ (polled ≡ some (record { terminal = some true; state = terminal }))
  pub reasonable :
      (is_completed terminal ≡ true)
      ⊎ ((is_failed terminal ≡ true)
          ⊎ ((is_cancelled terminal ≡ true) × (watchdog_stop attempt.reason_code ≡ true)))
  pub after : CampaignState
  pub outcome : Attempt
  pub leaves : d.state ≡ some after
  pub recorded : dict_get key after.attempts ≡ some outcome
  pub is_verified_now : outcome.state ≡ verified
  pub digest : outcome.evidence_digest ≡ some evidence.digest

record Completes (key : Text) (polled : Option ProviderStatus) (result : Option Result)
    (c : Campaign) (r : Reply × Campaign) : Type 0 where
  proof : r.0 ≡ replied exit_ok "VERIFIED" → HasEvidence key polled result c r.1

reasons :
    (a : Attempt) (t : TerminalState) (r : Result)
    → is_verified a t r ≡ true
    → (r.passed ≡ true)
      × ((is_completed t ≡ true)
          ⊎ ((is_failed t ≡ true)
              ⊎ ((is_cancelled t ≡ true) × (watchdog_stop a.reason_code ≡ true))))
unfolding is_verified
reasons a completed r h = (ground arith, inl refl)
reasons a failed r h = (ground arith, inr (inl refl))
reasons a cancelled r h = (ground arith, inr (inr (refl, ground arith)))
reasons a other r h = absurd (ground arith)

judged_verified :
    (a : Attempt) (t : TerminalState) (r : Result)
    → is_verified a t r ≡ true
    → ((judged a t r).state ≡ verified) × ((judged a t r).evidence_digest ≡ some r.digest)
unfolding judged
judged_verified a t r h = ground arith

module _ (key : Text) (polled : Option ProviderStatus) (result : Option Result) where
  Completes-reply :
      (s : CampaignState) (code : ℕ) (reason : String)
      → replied code reason ≢ replied exit_ok "VERIFIED"
      → Ensures (Completes key polled result) s (reply code reason)
  Completes-reply s code reason unlike = record {
    outcome = λ c here. record { proof = λ e. absurd (unlike e) };
  }

  Completes-judge :
      (a : Attempt) (t : TerminalState) (r : Result) (s : CampaignState)
      → dict_get key s.attempts ≡ some a
      → is_settled a.state ≡ false
      → result ≡ some r
      → (a.provider_terminal_state ≡ some t)
        ⊎ (polled ≡ some (record { terminal = some true; state = t }))
      → Ensures (Completes key polled result) s (judge key a t r s)
  unfolding judge
  Completes-judge a t r s found unsettled read ended = elim (Bool-cases (is_verified a t r)) [
    | inl passed ↦ rw passed (
        Ensures-save_attempt "verify" key (judged a t r) s (λ s'. reply exit_ok "VERIFIED")
          (λ c here. record { proof = λ e. absurd (ground arith) })
          (λ allowed c here. record {
            proof = λ e. record {
              before = s;
              attempt = a;
              evidence = r;
              terminal = t;
              reads = here;
              found = found;
              unsettled = unsettled;
              read = read;
              complete_evidence = (reasons a t r passed).0;
              ended = ended;
              reasonable = (reasons a t r passed).1;
              after = saved key (judged a t r) s;
              outcome = judged a t r;
              leaves = refl;
              recorded = ground (arith, dict_get-dict_set key key (judged a t r) s.attempts);
              is_verified_now = (judged_verified a t r passed).0;
              digest = (judged_verified a t r passed).1;
            };
          }))
    | inr missing ↦ rw missing (
        Ensures-save_attempt "verify" key (judged a t r) s
          (λ s'. reply exit_rejected "INCOMPLETE_EVIDENCE")
          (λ c here. record { proof = λ e. absurd (ground arith) })
          (λ allowed c here. record { proof = λ e. absurd (ground arith) }))
  ]

idempotent : replied exit_ok "IDEMPOTENT" ≢ replied exit_ok "VERIFIED"
idempotent e = cc

-- `verify` decides `VERIFIED` only for an attempt that was not settled, a stopped one included, if the reader found complete
-- evidence, the end of the job was recorded or is reported now, and the job completed, or failed, or
-- was cancelled after the campaign's own watchdog stopped waiting for it; and then the attempt is
-- recorded as verified, with the digest of the evidence.
pub verify_complete :
    (m : Matrix) (example : Text) (seed : ℕ) (phase : Phase) (polled : Option ProviderStatus)
    (result : Option Result) (c : Campaign)
    → (verify m example seed phase polled result c).0 ≡ replied exit_ok "VERIFIED"
    → HasEvidence
        (m.attempt_key example seed phase)
        polled
        result
        c
        (verify m example seed phase polled result c).1
unfolding verify
verify_complete m example seed phase polled result c =
    let key = m.attempt_key example seed phase in
    (Ensures-with_state {R = Completes key polled result} _ c
      (record { proof = λ e. absurd (ground arith) })
      (λ s here.
        Ensures-option s (dict_get key s.attempts) (reply exit_invariant "ATTEMPT_UNKNOWN") _
          (Completes-reply key polled result s _ _ (λ e. ground arith))
          (λ a found.
            Ensures-if s (is_settled a.state) (reply exit_ok "IDEMPOTENT") _
              (λ _. Completes-reply key polled result s _ _ idempotent)
              (λ unsettled.
                Ensures-option s result (reply exit_needs_human "EVIDENCE_READER_UNAVAILABLE") _
                  (Completes-reply key polled result s _ _ (λ e. ground arith))
                  (λ r read.
                    Ensures-option s a.provider_terminal_state _ _
                      (Ensures-option s polled (reply exit_needs_human "UNKNOWN_PROVIDER_STATE") _
                        (Completes-reply key polled result s _ _ (λ e. ground arith))
                        (λ status heard.
                          Ensures-if s (check_or false status.terminal) _
                            (reply exit_active "JOB_STILL_ACTIVE")
                            (λ over.
                              Completes-judge key polled result a status.state r s found unsettled
                                read (inr (ground arith)))
                            (λ _. Completes-reply key polled result s _ _ (λ e. ground arith))))
                      (λ t known.
                        Completes-judge key polled result a t r s found unsettled read
                          (inl known))))))).proof
