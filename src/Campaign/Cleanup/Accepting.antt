-- ===== src/Campaign/Cleanup/Accepting.antt =====
-- How `cleanup` and `accept` of sim2policy/src/sim2policy/showcase_campaign.py go together.
use nebius_serverless_challe.Prelude.{
  Text, ◌≡◌, refl, ◌≢◌, ◌⊎◌, inl, inr, Bool, true, not, ◌||◌, Option, none, some, List, [], ◌∷◌,
  arith, ◌==◌, Bool-cases, All,
}
use nebius_serverless_challe.Campaign.State.{
  verified, accepted, rejected, needs_human, in_states, Cleanup, pass, Attempt, Selection,
  CampaignState, Entry, Campaign,
}
use nebius_serverless_challe.Campaign.Commands.{Reply, replied, exit_ok, exit_invariant, reply}
use nebius_serverless_challe.Campaign.Examples.{
  example_of, Gates, is_pass, cleanup_ok, Decision, accept_it, reject_it, human_quality,
  human_cleanup, decide, decision_reply, judge_example, accept,
}
use nebius_serverless_challe.Campaign.Rules.{Ensures-with_state}
use nebius_serverless_challe.Campaign.Cleanup.{Audit, is_clean, cleaned_attempt, clean_all, cleanup}

-- An attempt of the example has come to an end, or was cleaned up before.
abbrev pub HasClosed : Text → Text × Attempt → Type 0
HasClosed example e =
    (e.1.example ≢ example)
    ⊎ ((in_states e.1.state (verified ∷ accepted ∷ rejected ∷ needs_human ∷ []) ≡ true)
        ⊎ (e.1.cleanup_state ≡ pass))

cleanup_ok_one :
    (example : Text) (a : Attempt)
    → HasClosed example (example, a)
    → not ((cleaned_attempt true a).example == example)
        || is_pass (cleaned_attempt true a).cleanup_state
      ≡ true
cleanup_ok_one example a (inl apart) = ground arith
cleanup_ok_one example a (inr (inl ended)) = ground arith
cleanup_ok_one example a (inr (inr before)) = ground arith

cleanup_ok-clean_all :
    (example : Text) (d : List (Text × Attempt))
    → All (HasClosed example) d
    → cleanup_ok example (clean_all true d) ≡ true
cleanup_ok-clean_all example [] h = refl
cleanup_ok-clean_all example ((k, a) ∷ d) h =
    rw (cleanup_ok_one example a h.0, cleanup_ok-clean_all example d h.1)

abbrev files : CampaignState → List Entry → List Text → Campaign
files s journal submissions = record {
  state = some s;
  journal = journal;
  submissions = submissions;
}

cleanup_passed :
    (audit : Audit) (s : CampaignState) (journal : List Entry) (submissions : List Text)
    → is_clean audit s.attempts ≡ true
    → (cleanup (some audit) (files s journal submissions)).1
      ≡ files (record s { attempts = clean_all true s.attempts }) journal submissions
unfolding cleanup
cleanup_passed audit s journal submissions clean = rw clean

accept_passed :
    (gates : Text → Gates) (example : Text) (s : CampaignState) (selection : Selection)
    (journal : List Entry) (submissions : List Text)
    → (example_of example s).selection ≡ some selection
    → (gates selection.run_id).hard ≡ true
    → (gates selection.run_id).preferred ≡ true
    → cleanup_ok example s.attempts ≡ true
    → (accept gates example (files s journal submissions)).0
      ≡ replied exit_ok "ACCEPTED_AND_PIN_READY"
unfolding accept judge_example
accept_passed gates example s selection journal submissions chosen hard preferred clean =
    ground arith

-- After a cleanup whose audit is clean, an example with a selection is accepted, if its selected run
-- met both gates and each of its attempts had come to an end or was cleaned up before.
pub accept-cleanup :
    (gates : Text → Gates) (example : Text) (audit : Audit) (s : CampaignState)
    (selection : Selection) (c : Campaign)
    → c.state ≡ some s
    → (example_of example s).selection ≡ some selection
    → (gates selection.run_id).hard ≡ true
    → (gates selection.run_id).preferred ≡ true
    → is_clean audit s.attempts ≡ true
    → All (HasClosed example) s.attempts
    → (accept gates example (cleanup (some audit) c).1).0 ≡ replied exit_ok "ACCEPTED_AND_PIN_READY"
accept-cleanup gates example audit s selection c here chosen hard preferred clean closed =
    let whole : c ≡ files s c.journal c.submissions = ground arith in
    rw (whole, cleanup_passed audit s c.journal c.submissions clean)
      (accept_passed gates example (record s { attempts = clean_all true s.attempts }) selection
        c.journal c.submissions chosen hard preferred
        (cleanup_ok-clean_all example s.attempts closed))

-- An acceptance: the campaign has a selection for the example, the selected run met both gates, and
-- every attempt of the example is cleaned up.
pub record IsAcceptance (gates : Text → Gates) (example : Text) (c : Campaign) : Type 0 where
  pub before : CampaignState
  pub selection : Selection
  pub reads : c.state ≡ some before
  pub chosen : (example_of example before).selection ≡ some selection
  pub hard : (gates selection.run_id).hard ≡ true
  pub preferred : (gates selection.run_id).preferred ≡ true
  pub cleaned_up :
      All
        (λ (e : Text × Attempt). (e.1.example ≢ example) ⊎ (e.1.cleanup_state ≡ pass))
        before.attempts

record Accepts (gates : Text → Gates) (example : Text) (c : Campaign) (r : Reply × Campaign)
    : Type 0 where
  proof : r.0 ≡ replied exit_ok "ACCEPTED_AND_PIN_READY" → IsAcceptance gates example c

is_pass_eq : (s : Cleanup) → is_pass s ≡ true → s ≡ pass
is_pass_eq pass h = refl
is_pass_eq _ h = absurd (ground arith)

All-of_cleanup_ok :
    (example : Text) (d : List (Text × Attempt))
    → cleanup_ok example d ≡ true
    → All (λ (e : Text × Attempt). (e.1.example ≢ example) ⊎ (e.1.cleanup_state ≡ pass)) d
All-of_cleanup_ok example [] h = tt
All-of_cleanup_ok example ((k, a) ∷ d) h = (one, All-of_cleanup_ok example d (ground arith))
  where
    one : (a.example ≢ example) ⊎ (a.cleanup_state ≡ pass)
    one = elim (Bool-cases (a.example == example)) [
      | inl same ↦ inr (is_pass_eq a.cleanup_state (ground arith))
      | inr apart ↦ inl (λ e. ground arith)
    ]

accepted_only :
    (d : Decision) (hard preferred clean : Bool) (c : Campaign)
    → decide hard preferred clean ≡ d
    → (decision_reply d c).0 ≡ replied exit_ok "ACCEPTED_AND_PIN_READY"
    → (hard ≡ true) × (preferred ≡ true) × (clean ≡ true)
accepted_only accept_it hard preferred clean c e r = ground arith
accepted_only reject_it hard preferred clean c e r = absurd (ground arith)
accepted_only human_quality hard preferred clean c e r = absurd (ground arith)
accepted_only human_cleanup hard preferred clean c e r = absurd (ground arith)

accepted_example :
    (g : Gates) (example : Text) (s : CampaignState) (c : Campaign)
    → (judge_example g example s c).0 ≡ replied exit_ok "ACCEPTED_AND_PIN_READY"
    → (g.hard ≡ true) × (g.preferred ≡ true) × (cleanup_ok example s.attempts ≡ true)
unfolding judge_example
accepted_example g example s c e =
    accepted_only _ g.hard g.preferred (cleanup_ok example s.attempts) _ refl e

accepted_selection :
    (gates : Text → Gates) (example : Text) (s : CampaignState) (c : Campaign)
    (o : Option Selection)
    → c.state ≡ some s
    → (example_of example s).selection ≡ o
    → Accepts gates example c (elim o [
      | none ↦ reply exit_invariant "SELECTION_REQUIRED" c
      | some selection ↦ judge_example (gates selection.run_id) example s c
    ])
accepted_selection gates example s c none here chosen = record {
  proof = λ e. absurd (ground arith);
}
accepted_selection gates example s c (some selection) here chosen = record {
  proof = λ e.
      let (hard, preferred, clean) = accepted_example (gates selection.run_id) example s c e in
      record {
        before = s;
        selection = selection;
        reads = here;
        chosen = chosen;
        hard = hard;
        preferred = preferred;
        cleaned_up = All-of_cleanup_ok example s.attempts clean;
      };
}

Accepts-accept :
    (gates : Text → Gates) (example : Text) (c : Campaign)
    → Accepts gates example c (accept gates example c)
unfolding accept
Accepts-accept gates example c =
    Ensures-with_state {R = Accepts gates example}
      (λ s d. elim (example_of example s).selection [
        | none ↦ reply exit_invariant "SELECTION_REQUIRED" d
        | some selection ↦ judge_example (gates selection.run_id) example s d
      ])
      c (record { proof = λ e. absurd (ground arith) })
      (λ s here. record { outcome = λ d there. accepted_selection gates example s d _ there refl })

-- `accept` replies that an example is accepted only where `IsAcceptance` holds.
pub accept-IsAcceptance :
    (gates : Text → Gates) (example : Text) (c : Campaign)
    → (accept gates example c).0 ≡ replied exit_ok "ACCEPTED_AND_PIN_READY"
    → IsAcceptance gates example c
accept-IsAcceptance gates example c = (Accepts-accept gates example c).proof
