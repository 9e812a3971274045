-- ===== src/Selection/Winner.antt =====
-- The winner of `select_checkpoint` of sim2policy/src/sim2policy/checkpoint_selection.py, and that its
-- ranking is explained.
use nebius_serverless_challe.Prelude.{
  suc, ◌≡◌, refl, ap, ◌∙◌, inl, inr, true, false, not, some, List, [], ◌∷◌, arith, Bool-cases,
  Option-cases, length, All, any,
}
use nebius_serverless_challe.Selection.Order.{
  max_from, sort_desc, head?, IsGreatest, length-sort_desc, head-sort_desc,
}
use nebius_serverless_challe.Selection.{
  Floats, is_selection, Kind, by_mean_reward, by_locomotion, unknown_kind, is_known, Evidence,
  lex_lt, rank_key, keyed, key_lt, max_of, select_checkpoint, Description, Explanation, describe,
  describe_first, explain_sorted, explain_ranking,
}
use nebius_serverless_challe.Selection.Keys.{
  key_order, length-with_keys, max_from-IsGreatest, max_from-ranked,
}

module _ (F : Floats) where
  open F use {Float}

  select_cases :
      (e : Evidence F) (es : List (Evidence F)) (kind : Kind) (w : Evidence F)
      → select_checkpoint F (e ∷ es) kind ≡ some w
      → (pairs : List (List Float × Evidence F)) × (keyed F kind (e ∷ es) ≡ some pairs)
        × (max_of F pairs ≡ some w)
        × (any (λ (c : Evidence F). not (is_selection c.role)) (e ∷ es) ≡ false)
  unfolding select_checkpoint
  select_cases e es kind w h =
      elim (Bool-cases (any (λ (c : Evidence F). not (is_selection c.role)) (e ∷ es))) [
        | inl wrong ↦ absurd (ground arith)
        | inr right ↦ elim (Option-cases (keyed F kind (e ∷ es))) [
          | inl failed ↦ absurd (ground arith)
          | inr (pairs, keys) ↦ (pairs, keys, ground arith, right)
        ]
      ]

  All-of_roles :
      (es : List (Evidence F))
      → any (λ (c : Evidence F). not (is_selection c.role)) es ≡ false
      → All (λ (c : Evidence F). is_selection c.role ≡ true) es
  All-of_roles [] h = tt
  All-of_roles (e ∷ es) h = (ground arith, All-of_roles es (ground arith))

  winner_pair :
      (kind : Kind) (es : List (Evidence F)) (pairs : List (List Float × Evidence F))
      (w : Evidence F)
      → keyed F kind es ≡ some pairs
      → max_of F pairs ≡ some w
      → IsGreatest (λ e. rank_key F e kind) (lex_lt F) es w
  winner_pair kind es [] w h e = absurd (ground arith)
  winner_pair kind es (p ∷ ps) w h e =
      let is_w : (max_from (key_lt F) p ps).1 ≡ w = ground arith in
      rw (← is_w)
        (max_from-IsGreatest (λ e. rank_key F e kind) (lex_lt F) (key_order F) p ps es refl h)

  -- `select_checkpoint` selects one of the candidates that it is given, and only if every candidate
  -- has a ranking key and is evidence of the role selection; no candidate's key is greater than the
  -- key of the one that is selected.
  pub select_checkpoint-IsGreatest :
      (es : List (Evidence F)) (kind : Kind) (w : Evidence F)
      → select_checkpoint F es kind ≡ some w
      → IsGreatest (λ e. rank_key F e kind) (lex_lt F) es w
        × All (λ (c : Evidence F). is_selection c.role ≡ true) es
  select_checkpoint-IsGreatest [] kind w h = absurd (unfold select_checkpoint in ground arith)
  select_checkpoint-IsGreatest (e ∷ es) kind w h =
      let (pairs, keys, top, roles) = select_cases e es kind w h in
      (winner_pair kind (e ∷ es) pairs w keys top, All-of_roles (e ∷ es) roles)

  explain_first :
      (pairs : List (List Float × Evidence F)) (p : List Float × Evidence F) (w : Evidence F)
      → head? pairs ≡ some p
      → p.1 ≡ w
      → (x : Explanation F) × (explain_sorted F pairs w ≡ some x)
        × (x.candidate_count ≡ length pairs)
        × (x.selected ≡ describe F p)
  explain_first [] p w h e = absurd (ground arith)
  explain_first (q ∷ qs) p w h e =
      let same : q ≡ p = ground arith in
      let itself : q.1.identity ≡ w.identity =
        ap (λ (r : List Float × Evidence F). r.1.identity) same
        ∙ ap (λ (v : Evidence F). v.identity) e in
      (
        record {
          candidate_count = suc (length qs);
          selected = describe F q;
          runner_up = describe_first F qs;
        },
        ground (arith, itself),
        refl,
        ap (describe F) same,
      )

  known_of_key :
      (e : Evidence F) (kind : Kind) (k : List Float)
      → rank_key F e kind ≡ some k
      → is_known kind ≡ true
  unfolding rank_key
  known_of_key e by_mean_reward k h = refl
  known_of_key e by_locomotion k h = refl
  known_of_key e unknown_kind k h = absurd (ground arith)

  explain_pairs :
      (pairs : List (List Float × Evidence F)) (kind : Kind) (es : List (Evidence F))
      (w : Evidence F)
      → keyed F kind es ≡ some pairs
      → max_of F pairs ≡ some w
      → (x : Explanation F) × (explain_ranking F es w kind ≡ some x)
        × (x.candidate_count ≡ length es)
        × (x.selected.step ≡ w.effective_step)
        × (x.selected.digest ≡ w.sha256)
        × (rank_key F w kind ≡ some x.selected.values)
  unfolding explain_ranking
  explain_pairs [] kind es w h e = absurd (ground arith)
  explain_pairs (p ∷ ps) kind es w h e =
      let top = max_from (key_lt F) p ps in
      let is_w : top.1 ≡ w = ground arith in
      let ranked = max_from-ranked (λ e. rank_key F e kind) (key_order F) p ps es h in
      let (x, explained, count, first) =
        explain_first (sort_desc (key_lt F) (p ∷ ps)) top w (head-sort_desc (key_order F) p ps)
          is_w in
      let known = known_of_key top.1 kind top.0 ranked in
      (
        x,
        rw (known, h) explained,
        omega (
          arith,
          count,
          length-sort_desc (key_lt F) (p ∷ ps),
          length-with_keys (λ e. rank_key F e kind) es (p ∷ ps) h,
        ),
        ap (λ (d : Description F). d.step) first ∙ ap (λ (v : Evidence F). v.effective_step) is_w,
        ap (λ (d : Description F). d.digest) first ∙ ap (λ (v : Evidence F). v.sha256) is_w,
        rw (first, ← is_w) ranked,
      )

  -- The selection of `select_checkpoint` is explained: `explain_ranking` of the same candidates and
  -- the selected one does not raise, counts all the candidates, and describes the selected one with
  -- its own ranking key.
  pub explain_ranking-select_checkpoint :
      (es : List (Evidence F)) (kind : Kind) (w : Evidence F)
      → select_checkpoint F es kind ≡ some w
      → (x : Explanation F) × (explain_ranking F es w kind ≡ some x)
        × (x.candidate_count ≡ length es)
        × (x.selected.step ≡ w.effective_step)
        × (x.selected.digest ≡ w.sha256)
        × (rank_key F w kind ≡ some x.selected.values)
  explain_ranking-select_checkpoint [] kind w h = absurd (unfold select_checkpoint in ground arith)
  explain_ranking-select_checkpoint (e ∷ es) kind w h =
      let (pairs, keys, top, roles) = select_cases e es kind w h in
      explain_pairs pairs kind (e ∷ es) w keys top
