-- ===== src/Campaign/Selecting/Choice.antt =====
-- What `select` of sim2policy/src/sim2policy/showcase_campaign.py chooses.
use nebius_serverless_challe.Prelude.{
  ℕ, ◌<◌, Text, ◌≡◌, refl, ap, Bool, true, false, not, Option, none, some, List, [], ◌∷◌, arith,
  length, All, any,
}
use nebius_serverless_challe.Campaign.State.{
  base, Selection, Example, CampaignState, Campaign, dict_get, dict_set,
}
use nebius_serverless_challe.Campaign.Commands.{
  Reply, replied, exit_ok, exit_invariant, reply, raise_error,
}
use nebius_serverless_challe.Selection.Order.{
  sort_desc, with_keys, head?, max_from, IsGreatest, length-sort_desc, head-sort_desc,
}
use nebius_serverless_challe.Selection.{Floats, lex_lt}
use nebius_serverless_challe.Selection.Keys.{key_order, length-with_keys, max_from-IsGreatest}
use nebius_serverless_challe.Campaign.State.Dict.{dict_get-dict_set}
use nebius_serverless_challe.Campaign.Planning.{Card, Matrix}
use nebius_serverless_challe.Campaign.Examples.{new_example, example_of}
use nebius_serverless_challe.Campaign.Rules.{Ensures-if, Ensures-option, Ensures-with_state}
use nebius_serverless_challe.Campaign.Selecting.{
  is_settled_seed, Metrics, Candidate, candidates_of, key_of, by_key, chosen_selection,
  with_selection, record_selection, rank_candidates, select,
}

module _ (F : Floats) where
  open F use {Float}

  -- A selection for an example: every base seed of its card is settled; the chosen run is that of a
  -- candidate, and no candidate has a greater ranking key; the run, the seed, the checkpoint and the
  -- number of candidates are recorded for the example, and the attempts are as before.
  pub record IsChoice (m : Matrix) (metrics : Text → Option (Metrics F)) (example : Text)
      (c d : Campaign) : Type 0 where
    pub before : CampaignState
    pub card : Card
    pub best : Candidate F
    pub after : CampaignState
    pub chosen : Selection
    pub reads : c.state ≡ some before
    pub described : m.card example ≡ some card
    pub settled :
        All
          (λ seed.
            is_settled_seed (dict_get (m.attempt_key example seed base) before.attempts) ≡ true)
          card.seeds
    pub greatest :
        IsGreatest
          (key_of F card.ranking)
          (lex_lt F)
          (candidates_of F metrics example before.attempts)
          best
    pub leaves : d.state ≡ some after
    pub kept : after.attempts ≡ before.attempts
    pub recorded : (example_of example after).selection ≡ some chosen
    pub of_run : chosen.run_id ≡ best.run_id
    pub of_seed : chosen.seed ≡ best.seed
    pub of_checkpoint : chosen.checkpoint_sha256 ≡ best.metrics.checkpoint_sha256
    pub counted : chosen.candidate_count ≡ length (candidates_of F metrics example before.attempts)

  record Chooses (m : Matrix) (metrics : Text → Option (Metrics F)) (example : Text) (c : Campaign)
      (r : Reply × Campaign) : Type 0 where
    proof : r.0 ≡ replied exit_ok "SELECTION_RECORDED" → IsChoice m metrics example c r.1

  All-of_settled :
      (test : ℕ → Bool) (seeds : List ℕ)
      → any (λ seed. not (test seed)) seeds ≡ false
      → All (λ seed. test seed ≡ true) seeds
  All-of_settled test [] h = tt
  All-of_settled test (seed ∷ seeds) h = (ground arith, All-of_settled test seeds (ground arith))

  -- What is recorded for an example is read again.
  read :
      (example : Text) (e : Example) (d : List (Text × Example)) (chosen : Selection)
      → e.selection ≡ some chosen
      → (let o : Example = elim (dict_get example (dict_set example e d)) [
        | none ↦ new_example
        | some x ↦ x
      ] in
          o.selection)
        ≡ some chosen
  read example e d chosen h =
      let found : dict_get example (dict_set example e d) ≡ some e =
        ground (arith, dict_get-dict_set example example e d) in
      rw found h

  -- What is recorded of the first of the sorted candidates.
  recorded_first :
      (card : Card) (example : Text) (s : CampaignState) (c : Campaign)
      (sorted : List (List Float × Candidate F)) (p : List Float × Candidate F)
      → head? sorted ≡ some p
      → (after : CampaignState) × (chosen : Selection) × ((record_selection F card example s sorted
            c).1.state
          ≡ some after)
        × (after.attempts ≡ s.attempts)
        × ((example_of example after).selection ≡ some chosen)
        × (chosen.run_id ≡ p.1.run_id)
        × (chosen.seed ≡ p.1.seed)
        × (chosen.checkpoint_sha256 ≡ p.1.metrics.checkpoint_sha256)
        × (chosen.candidate_count ≡ length sorted)
  unfolding record_selection
  recorded_first card example s c [] p h = absurd (ground arith)
  recorded_first card example s c (q ∷ qs) p h =
      let same : q ≡ p = ground arith in
      let chosen = chosen_selection F card (example_of example s) q qs in
      let e : Example = record (example_of example s) { selection = some chosen } in
      (
        with_selection F example chosen s,
        chosen,
        refl,
        refl,
        read example e s.examples chosen refl,
        ap (λ (x : List Float × Candidate F). x.1.run_id) same,
        ap (λ (x : List Float × Candidate F). x.1.seed) same,
        ap (λ (x : List Float × Candidate F). x.1.metrics.checkpoint_sha256) same,
        refl,
      )

  Chooses_candidates :
      (m : Matrix) (metrics : Text → Option (Metrics F)) (example : Text) (card : Card)
      (s : CampaignState) (c : Campaign) (cs : List (Candidate F))
      (pairs : List (List Float × Candidate F))
      → c.state ≡ some s
      → m.card example ≡ some card
      → All
          (λ seed. is_settled_seed (dict_get (m.attempt_key example seed base) s.attempts) ≡ true)
          card.seeds
      → candidates_of F metrics example s.attempts ≡ cs
      → with_keys (key_of F card.ranking) cs ≡ some pairs
      → 0 < length pairs
      → IsChoice m metrics example c
          (record_selection F card example s (sort_desc (by_key F) pairs) c).1
  Chooses_candidates m metrics example card s c cs [] here described settled all keys some_pair =
      absurd (omega arith)
  Chooses_candidates m metrics example card s c cs (p ∷ ps) here described settled all keys
        some_pair =
      let order = key_order F {A = Candidate F} in
      let top = max_from (by_key F) p ps in
      let sorted = sort_desc (by_key F) (p ∷ ps) in
      let (after, chosen, leaves, kept, recorded, of_run, of_seed, of_checkpoint, counted) =
        recorded_first card example s c sorted top (head-sort_desc order p ps) in
      record {
        before = s;
        card = card;
        best = top.1;
        after = after;
        chosen = chosen;
        reads = here;
        described = described;
        settled = settled;
        greatest =
            rw all (max_from-IsGreatest (key_of F card.ranking) (lex_lt F) order p ps cs refl keys);
        leaves = leaves;
        kept = kept;
        recorded = recorded;
        of_run = of_run;
        of_seed = of_seed;
        of_checkpoint = of_checkpoint;
        counted = rw all (
            omega (
              arith,
              counted,
              length-sort_desc (by_key F) (p ∷ ps),
              length-with_keys (key_of F card.ranking) cs (p ∷ ps) keys,
            ));
      }

  Chooses-rank_candidates :
      (m : Matrix) (metrics : Text → Option (Metrics F)) (example : Text) (card : Card)
      (s : CampaignState) (c : Campaign) (cs : List (Candidate F))
      → c.state ≡ some s
      → m.card example ≡ some card
      → All
          (λ seed. is_settled_seed (dict_get (m.attempt_key example seed base) s.attempts) ≡ true)
          card.seeds
      → candidates_of F metrics example s.attempts ≡ cs
      → Chooses m metrics example c (rank_candidates F card example s cs c)
  unfolding rank_candidates
  Chooses-rank_candidates m metrics example card s c [] here described settled all = record {
    proof = λ e. absurd (ground arith);
  }
  Chooses-rank_candidates m metrics example card s c (x ∷ xs) here described settled all =
      (Ensures-option {R = Chooses m metrics example} s (with_keys (key_of F card.ranking) (x ∷ xs))
          raise_error (λ pairs d. record_selection F card example s (sort_desc (by_key F) pairs) d)
          (record { outcome = λ d there. record { proof = λ e. absurd (ground arith) } })
          (λ pairs keys. record {
            outcome = λ d there.
                let count = length-with_keys (key_of F card.ranking) (x ∷ xs) pairs keys in
                record {
                  proof = λ e.
                      Chooses_candidates m metrics example card s d (x ∷ xs) pairs there described
                        settled all keys (omega (arith, count));
                };
          })).outcome
        c here

  -- `select` records a selection only if every base seed of the example is settled; the selected run
  -- is that of a candidate, no candidate has a greater ranking key, the selection names the run, the
  -- seed, the checkpoint and the number of the candidates, and the attempts stay as they were.
  pub select-IsChoice :
      (m : Matrix) (metrics : Text → Option (Metrics F)) (example : Text) (c : Campaign)
      → (select F m metrics example c).0 ≡ replied exit_ok "SELECTION_RECORDED"
      → IsChoice m metrics example c (select F m metrics example c).1
  unfolding select
  select-IsChoice m metrics example c =
      (Ensures-with_state {R = Chooses m metrics example} _ c
        (record { proof = λ e. absurd (ground arith) })
        (λ s here.
          Ensures-option s (m.card example) raise_error _
            (record { outcome = λ d _. record { proof = λ e. absurd (ground arith) } })
            (λ card described.
              Ensures-if s
                (any
                  (λ seed.
                    not (is_settled_seed (dict_get (m.attempt_key example seed base) s.attempts)))
                  card.seeds)
                (reply exit_invariant "BASE_SEEDS_INCOMPLETE") _
                (λ _. record { outcome = λ d _. record { proof = λ e. absurd (ground arith) } })
                (λ settled. record {
                  outcome = λ d there.
                      Chooses-rank_candidates m metrics example card s d _ there described
                        (All-of_settled
                          (λ seed.
                            is_settled_seed (dict_get (m.attempt_key example seed base) s.attempts))
                          card.seeds settled)
                        refl;
                })))).proof
