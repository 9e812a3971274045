-- ===== src/Campaign/Refinement/Commands.antt =====
-- `initialize`, `implementation_gate`, `extend`, `accept` and `cleanup` do effects only.
use nebius_serverless_challe.Prelude.{
  ℕ, Text, String, ◌≡◌, refl, inl, inr, Bool, false, not, Option, none, some, List, [], ◌∷◌, ◌==◌,
  if◌then◌else◌, Bool-cases, any,
}
use nebius_serverless_challe.Campaign.State.{
  base, extension, Example, CampaignState, Campaign, dict_get,
}
use nebius_serverless_challe.Campaign.Commands.{
  Reply, exit_ok, exit_invariant, reply, raise_error, write_state,
}
use nebius_serverless_challe.Campaign.Commands.{
  initialize, Evidence, is_absent, not_nebius, implementation_gate,
}
use nebius_serverless_challe.Campaign.Planning.{Card, Matrix, build_plan}
use nebius_serverless_challe.Selection.{Floats}
use nebius_serverless_challe.Selection.Order.{with_keys}
use nebius_serverless_challe.Campaign.Selecting.{
  is_settled_seed, Metrics, Candidate, key_of, record_selection, rank_candidates, select,
}
use nebius_serverless_challe.Campaign.Examples.{
  example_of, extend, Gates, Decision, accept_it, reject_it, human_quality, human_cleanup,
  decision_reply, judge_example, accept,
}
use nebius_serverless_challe.Campaign.Cleanup.{Audit, is_clean, clean_all, cleanup}
use nebius_serverless_challe.Campaign.Effects.{
  as_creation, as_gate, as_choice, as_audit, Effects, create, clean, no_more, first,
}
use nebius_serverless_challe.Campaign.Rules.{Ensures-if, Ensures-option}
use nebius_serverless_challe.Campaign.Refinement.{
  Does, DoesAt, DoesAt-reply, DoesAt-raise, Does-with_state, DoesAt-set_gate, DoesAt-note,
}

initialized :
    (digest : Text) (c : Campaign) (o : Option CampaignState)
    → c.state ≡ o
    → Effects as_creation c (
        let r : Reply × Campaign = elim o [
          | some s ↦
              if s.matrix_digest == digest
              then reply exit_ok "IDEMPOTENT" c
              else reply exit_invariant "MATRIX_DIGEST_MISMATCH" c
          | none ↦ reply exit_ok "INITIALIZED" (
              write_state
                (record {
                  matrix_digest = digest;
                  gate_passed = false;
                  attempts = [];
                  examples = [];
                })
                c)
        ] in
        r.1)
initialized digest c none new = first (create c digest new) no_more
initialized digest c (some s) here = elim (Bool-cases (s.matrix_digest == digest)) [
  | inl same ↦ rw same no_more
  | inr different ↦ rw different no_more
]

pub Does-initialize : (digest : Text) → Does as_creation (initialize digest)
unfolding initialize
Does-initialize digest = record { effects = λ c h. initialized digest c c.state refl }

pub Does-implementation_gate :
    (documents : List Evidence) → Does as_gate (implementation_gate documents)
unfolding implementation_gate
Does-implementation_gate documents = Does-with_state _ (λ s h.
    Ensures-if s (any is_absent documents) _ _ (λ _. DoesAt-set_gate _ _ s _)
      (λ _.
        Ensures-if s (any not_nebius documents) _ _ (λ _. DoesAt-set_gate _ _ s _)
          (λ _. DoesAt-set_gate _ _ s _)))

DoesAt-record_selection :
    (F : Floats) (card : Card) (example : Text) (s : CampaignState)
    (sorted : List (List F.Float × Candidate F))
    → DoesAt as_choice s (record_selection F card example s sorted)
unfolding record_selection
DoesAt-record_selection F card example s [] = DoesAt-raise s
DoesAt-record_selection F card example s (p ∷ ps) = DoesAt-note _ _ s _

DoesAt-rank_candidates :
    (F : Floats) (card : Card) (example : Text) (s : CampaignState) (cs : List (Candidate F))
    → DoesAt as_choice s (rank_candidates F card example s cs)
unfolding rank_candidates
DoesAt-rank_candidates F card example s [] = DoesAt-reply s _ _
DoesAt-rank_candidates F card example s (x ∷ xs) =
    Ensures-option s (with_keys (key_of F card.ranking) (x ∷ xs)) raise_error _ (DoesAt-raise s)
      (λ pairs _. DoesAt-record_selection F card example s _)

pub Does-select :
    (F : Floats) (m : Matrix) (metrics : Text → Option (Metrics F)) (example : Text)
    → Does as_choice (select F m metrics example)
unfolding select
Does-select F m metrics example = Does-with_state _ (λ s h.
    Ensures-option s (m.card example) raise_error _ (DoesAt-raise s) (λ card _.
      Ensures-if s
        (any (λ seed. not (is_settled_seed (dict_get (m.attempt_key example seed base) s.attempts)))
          card.seeds)
        (reply exit_invariant "BASE_SEEDS_INCOMPLETE") _ (λ _. DoesAt-reply s _ _)
        (λ _. DoesAt-rank_candidates F card example s _)))

pub Does-extend :
    (m : Matrix) (example confirmation : Text) → Does as_choice (extend m example confirmation)
unfolding extend
Does-extend m example confirmation = Does-with_state _ (λ s h.
    let e = example_of example s in
    Ensures-if s e.extension_consumed (reply exit_invariant "EXTENSION_ALREADY_CONSUMED") _
      (λ _. DoesAt-reply s _ _)
      (λ _.
        Ensures-option s e.selection (reply exit_invariant "SELECTION_REQUIRED") _
          (DoesAt-reply s _ _)
          (λ selection _.
            Ensures-option s (build_plan m example selection.seed extension s) raise_error _
              (DoesAt-raise s)
              (λ p _.
                Ensures-if s (confirmation == m.plan_digest p) _
                  (reply exit_invariant "PLAN_DIGEST_MISMATCH") (λ _. DoesAt-note _ _ s _)
                  (λ _. DoesAt-reply s _ _)))))

DoesAt-decision :
    (d : Decision) (s : CampaignState) (examples : List (Text × Example))
    → DoesAt as_choice s (λ c. decision_reply d (write_state (record s { examples = examples }) c))
DoesAt-decision accept_it s examples = DoesAt-note _ _ s _
DoesAt-decision reject_it s examples = DoesAt-note _ _ s _
DoesAt-decision human_quality s examples = DoesAt-note _ _ s _
DoesAt-decision human_cleanup s examples = DoesAt-note _ _ s _

pub Does-accept : (gates : Text → Gates) (example : Text) → Does as_choice (accept gates example)
unfolding accept judge_example
Does-accept gates example = Does-with_state _ (λ s h.
    Ensures-option s (example_of example s).selection (reply exit_invariant "SELECTION_REQUIRED") _
      (DoesAt-reply s _ _) (λ selection _. DoesAt-decision _ s _))

DoesAt-clean :
    (code : ℕ) (reason : String) (s : CampaignState) (passed : Bool)
    → DoesAt as_audit s (λ c.
      reply code reason (write_state (record s { attempts = clean_all passed s.attempts }) c))
DoesAt-clean code reason s passed = record {
  outcome = λ c here h. first (clean c s passed here) no_more;
}

pub Does-cleanup : (answer : Option Audit) → Does as_audit (cleanup answer)
unfolding cleanup
Does-cleanup answer = Does-with_state _ (λ s h.
    Ensures-option s answer (reply exit_invariant "CLEANUP_AUDIT_FAILED") _ (DoesAt-reply s _ _)
      (λ audit _.
        let passed = is_clean audit s.attempts in
        Ensures-if s passed _ _ (λ _. DoesAt-clean _ _ s _) (λ _. DoesAt-clean _ _ s _)))
