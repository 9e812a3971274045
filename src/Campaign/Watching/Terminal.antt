-- ===== src/Campaign/Watching/Terminal.antt =====
-- That `watch` of sim2policy/src/sim2policy/showcase_campaign.py records the end of a remote job.
use nebius_serverless_challe.Prelude.{
  ℕ, ◌+◌, ◌<◌, Text, ◌≡◌, refl, true, false, Option, some, List, [], ◌∷◌, ◌++◌, map, arith, leb,
  if◌then◌else◌, length,
}
use nebius_serverless_challe.Campaign.State.{
  AttemptState, submitted, running, finalizing, state_eq, is_transition, is_active_state,
  TerminalState, Attempt, CampaignState, Entry, Campaign, dict_get, active_attempt,
}
use nebius_serverless_challe.Campaign.Commands.{Reply, replied, exit_ok, save_attempt}
use nebius_serverless_challe.Orchestration.Resume.{truthy}
use nebius_serverless_challe.Campaign.Commands.{saved, save_entry, with_entry}
use nebius_serverless_challe.Campaign.State.Dict.{
  dict_get-dict_set, first_active_sound, dict_get-first_active,
}
use nebius_serverless_challe.Campaign.Watching.{
  Round, observe, progressing, watched, watch_rounds, watch,
}
use nebius_serverless_challe.Campaign.Serialized.{IsSerialized}

-- A round in which the provider reports a job that runs, and one in which it reports an end.
abbrev pub running_round : TerminalState × ℕ → Round
running_round tick = record {
  status = some (record { terminal = some false; state = tick.0 });
  clock = tick.1;
}

abbrev pub last_round : TerminalState → ℕ → Round
last_round t clock = record {
  status = some (record { terminal = some true; state = t });
  clock = clock;
}

abbrev files : CampaignState → List Entry → List Text → Campaign
files s journal submissions = record {
  state = some s;
  journal = journal;
  submissions = submissions;
}

-- The watch replied that the job ended, and the attempt is recorded as finalizing, with that end.
pub record HasEnded (key : Text) (remote_id : Option Text) (t : TerminalState)
    (r : Reply × Campaign) : Type 0 where
  pub replies : r.0 ≡ replied exit_ok "TERMINAL"
  pub after : CampaignState
  pub attempt : Attempt
  pub leaves : r.1.state ≡ some after
  pub recorded : dict_get key after.attempts ≡ some attempt
  pub is_finalizing : attempt.state ≡ finalizing
  pub terminal : attempt.provider_terminal_state ≡ some t
  pub same_job : attempt.remote_id ≡ remote_id

progress_follows :
    (b : AttemptState)
    → is_active_state b ≡ true
    → is_transition b (if state_eq b submitted then running else b) ≡ true
progress_follows b active = ground arith

progress_active :
    (b : AttemptState)
    → is_active_state b ≡ true
    → is_active_state (if state_eq b submitted then running else b) ≡ true
progress_active b active = ground arith

progressing_follows :
    (a : Attempt) (clock : ℕ)
    → is_active_state a.state ≡ true
    → (is_transition a.state (progressing a clock).state ≡ true)
      × (is_active_state (progressing a clock).state ≡ true)
progressing_follows a clock active =
    (progress_follows a.state active, progress_active a.state active)

finalizing_follows :
    (a : AttemptState) → is_active_state a ≡ true → is_transition a finalizing ≡ true
finalizing_follows a active = ground arith

module _ (max_polls : ℕ) (key : Text) (a : Attempt) (s : CampaignState) (journal : List Entry)
    (submissions : List Text) (found : dict_get key s.attempts ≡ some a)
    (active : is_active_state a.state ≡ true) (remote : truthy a.remote_id ≡ true) where
  watch_rounds-running :
      (tick : TerminalState × ℕ) (rounds : List Round) (polls : ℕ)
      → leb max_polls (polls + 1) ≡ false
      → watch_rounds true max_polls key
          (running_round tick ∷ rounds)
          polls
          (files s journal submissions)
        ≡ watch_rounds true max_polls key rounds (polls + 1) (
            with_entry
              (save_entry "watch" key (progressing a tick.1) s)
              (saved key (progressing a tick.1) s)
              (files s journal submissions))
  unfolding watch_rounds observe save_attempt
  watch_rounds-running tick rounds polls more =
      let follows = (progressing_follows a tick.1 active).0 in ground arith

  watch_rounds-last :
      (t : TerminalState) (clock : ℕ) (rounds : List Round) (polls : ℕ)
      → HasEnded key a.remote_id t (
          watch_rounds true max_polls key
            (last_round t clock ∷ rounds)
            polls
            (files s journal submissions))
  unfolding watch_rounds observe save_attempt
  watch_rounds-last t clock rounds polls =
      let a' : Attempt = record (watched a clock) {
        state = finalizing;
        provider_terminal_state = some t;
      } in
      let follows = finalizing_follows a.state active in
      record {
        replies = ground arith;
        after = saved key a' s;
        attempt = a';
        leaves = ground arith;
        recorded = ground (arith, dict_get-dict_set key key a' s.attempts);
        is_finalizing = refl;
        terminal = refl;
        same_job = refl;
      }

rounds_find_end :
    (max_polls : ℕ) (key : Text) (t : TerminalState) (clock : ℕ) (rest : List Round)
    (ticks : List (TerminalState × ℕ)) (polls : ℕ) (a : Attempt) (s : CampaignState)
    (journal : List Entry) (submissions : List Text)
    → dict_get key s.attempts ≡ some a
    → is_active_state a.state ≡ true
    → truthy a.remote_id ≡ true
    → polls + length ticks < max_polls
    → HasEnded key a.remote_id t (
        watch_rounds true max_polls key
          (map running_round ticks ++ last_round t clock ∷ rest)
          polls
          (files s journal submissions))
rounds_find_end max_polls key t clock rest [] polls a s journal submissions found active remote
      enough =
    watch_rounds-last max_polls key a s journal submissions found active remote t clock rest polls
rounds_find_end max_polls key t clock rest (tick ∷ ticks) polls a s journal submissions found active
      remote enough =
    let more : leb max_polls (polls + 1) ≡ false = ground arith in
    rw
      (watch_rounds-running max_polls key a s journal submissions found active remote tick
        (map running_round ticks ++ last_round t clock ∷ rest) polls more)
      (rounds_find_end max_polls key t clock rest ticks (polls + 1) (progressing a tick.1)
        (saved key (progressing a tick.1) s) _ submissions
        (ground (arith, dict_get-dict_set key key (progressing a tick.1) s.attempts))
        (progressing_follows a tick.1 active).1 remote (omega arith))

watch-files :
    (max_polls : ℕ) (key : Text) (rounds : List Round) (a : Attempt) (s : CampaignState)
    (journal : List Entry) (submissions : List Text)
    → active_attempt s ≡ some (key, a)
    → watch true max_polls rounds (files s journal submissions)
      ≡ watch_rounds true max_polls key rounds 0 (files s journal submissions)
unfolding watch
watch-files max_polls key rounds a s journal submissions e = ground arith

-- A watch that waits for the end, of an active attempt with a remote job: if the provider answers
-- fewer rounds than the greatest number of polls with a job that runs, and then with its end, the
-- watch replies so, and the attempt is recorded as finalizing, with that end and the same job.
pub watch_finds_end :
    (max_polls : ℕ) (key : Text) (t : TerminalState) (clock : ℕ) (rest : List Round)
    (ticks : List (TerminalState × ℕ)) (a : Attempt) (s : CampaignState) (c : Campaign)
    → IsSerialized c
    → c.state ≡ some s
    → active_attempt s ≡ some (key, a)
    → truthy a.remote_id ≡ true
    → length ticks < max_polls
    → HasEnded key a.remote_id t
        (watch true max_polls (map running_round ticks ++ last_round t clock ∷ rest) c)
unfolding active_attempt
watch_finds_end max_polls key t clock rest ticks a s c h here e remote enough =
    let whole : c ≡ files s c.journal c.submissions = ground arith in
    rw
      (
        whole,
        watch-files max_polls key (map running_round ticks ++ last_round t clock ∷ rest) a s
            c.journal c.submissions e,
      )
      (rounds_find_end max_polls key t clock rest ticks 0 a s c.journal c.submissions
        (dict_get-first_active key a s.attempts (h.at s here).unique e)
        (first_active_sound key a s.attempts e) remote (omega arith))
