-- ===== src/Campaign/History/Journal.antt =====
-- What the journal of sim2policy/src/sim2policy/campaign_state.py tells of the attempts.
use nebius_serverless_challe.Prelude.{
  Text, ◌≡◌, refl, ap, ◌∙◌, ◌⊎◌, inl, inr, Bool, true, false, ◌&&◌, Option, none, some, List, [],
  ◌∷◌, ◌++◌, arith, ◌==◌, if◌then◌else◌, Bool-cases,
}
use nebius_serverless_challe.Campaign.State.{
  AttemptState, verified, cleaned, state_eq, Attempt, CampaignState, Entry, Campaign, dict_get,
}
use nebius_serverless_challe.Campaign.Commands.{state_of}
use nebius_serverless_challe.Campaign.State.Dict.{dict_get-dict_set}
use nebius_serverless_challe.Campaign.Cleanup.{cleaned_attempt, clean_all}
use nebius_serverless_challe.Campaign.Commands.{save_entry}
use nebius_serverless_challe.Campaign.Effects.{
  CommandRole, Effect, create, set_gate, note, save, launch, clean, Effects, no_more, first,
}
use nebius_serverless_challe.Selection.{Floats}
use nebius_serverless_challe.Campaign.History.{
  Reachable, start, next, CampaignStep-Effects, Reachable-IsSerialized,
}

-- The state that the journal gives an attempt: that of the last line about it.
abbrev pub last_state : Text → List Entry → Option AttemptState
last_state k [] = none
last_state k (e ∷ journal) = elim (last_state k journal) [
  | some later ↦ some later
  | none ↦ if e.key == k then some e.after else none
]

-- The journal gives the state that is recorded, except that an audit may have marked a verified
-- attempt as cleaned.
abbrev pub Agrees : Option AttemptState → Option AttemptState → Type 0
Agrees journalled recorded =
    (journalled ≡ recorded) ⊎ ((journalled ≡ some verified) × (recorded ≡ some cleaned))

record Replays (c : Campaign) : Type 0 where
  unused : c.state ≡ none → c.journal ≡ []
  at :
      (s : CampaignState) (k : Text)
      → c.state ≡ some s
      → Agrees (last_state k c.journal) (state_of (dict_get k s.attempts))

last_state-append :
    (k : Text) (journal : List Entry) (e : Entry)
    → last_state k (journal ++ e ∷ []) ≡ (if e.key == k then some e.after else last_state k journal)
last_state-append k [] e = ground arith
last_state-append k (f ∷ journal) e = ground (arith, last_state-append k journal e)

eq_verified : (a : AttemptState) → state_eq a verified ≡ true → a ≡ verified
eq_verified verified h = refl
eq_verified _ h = absurd (ground arith)

-- An audit leaves a state or marks a verified one as cleaned.
cleaned_state :
    (passed : Bool) (a : Attempt)
    → ((cleaned_attempt passed a).state ≡ a.state)
      ⊎ ((a.state ≡ verified) × ((cleaned_attempt passed a).state ≡ cleaned))
cleaned_state passed a = elim (Bool-cases (passed && state_eq a.state verified)) [
  | inl marked ↦ inr (eq_verified a.state (ground arith), ground arith)
  | inr left ↦ inl (ground arith)
]

Agrees-cleaned :
    (o : Option AttemptState) (passed : Bool) (a : Attempt)
    → Agrees o (some a.state)
    → Agrees o (some (cleaned_attempt passed a).state)
Agrees-cleaned o passed a h = elim (cleaned_state passed a) [
  | inl same ↦ rw same h
  | inr (was, now) ↦ elim h [
    | inl equal ↦ inr (equal ∙ ap some was, ap some now)
    | inr (_, already) ↦ absurd (ground arith)
  ]
]

dict_get-clean_all :
    (k : Text) (passed : Bool) (o : Option AttemptState) (d : List (Text × Attempt))
    → Agrees o (state_of (dict_get k d))
    → Agrees o (state_of (dict_get k (clean_all passed d)))
dict_get-clean_all k passed o [] h = h
dict_get-clean_all k passed o ((j, a) ∷ d) h = elim (Bool-cases (j == k)) [
  | inl same ↦ rw same (Agrees-cleaned o passed a (rw same at h))
  | inr different ↦ rw different (dict_get-clean_all k passed o d (rw different at h))
]

Replays-some :
    (c : Campaign) (s : CampaignState)
    → c.state ≡ some s
    → ((k : Text) → Agrees (last_state k c.journal) (state_of (dict_get k s.attempts)))
    → Replays c
Replays-some c s here h = record {
  unused = λ none_yet. ground arith;
  at = λ t k e. let same : s.attempts ≡ t.attempts = ground arith in rw (← same) (h k);
}

Agrees-set :
    (b : Bool) (a : Attempt) (o : Option AttemptState) (x : Option Attempt)
    → Agrees o (state_of x)
    → Agrees (if b then some a.state else o) (state_of (if b then some a else x))
Agrees-set true a o x h = inl refl
Agrees-set false a o x h = h

Effect-Replays : {role : CommandRole} {c d : Campaign} → Effect role c d → Replays c → Replays d
Effect-Replays (create c digest new) h =
    Replays-some _ _ refl (λ k. let empty_yet = h.unused new in rw empty_yet (inl refl))
Effect-Replays (set_gate c s gate here) h = Replays-some _ _ refl (λ k. h.at s k here)
Effect-Replays (note c s examples here) h = Replays-some _ _ refl (λ k. h.at s k here)
Effect-Replays (save role c s command key a here allowed permitted saves) h =
    Replays-some _ _ refl (λ k.
      rw
        (
          last_state-append k c.journal (save_entry command key a s),
          dict_get-dict_set k key a s.attempts,
        )
        (Agrees-set (key == k) a _ (dict_get k s.attempts) (h.at s k here)))
Effect-Replays (launch c s key a run_id here gate idle found ready) h = record {
  unused = h.unused;
  at = h.at;
}
Effect-Replays (clean c s passed here) h =
    Replays-some _ _ refl (λ k. dict_get-clean_all k passed _ s.attempts (h.at s k here))

Effects-Replays : {role : CommandRole} {c d : Campaign} → Effects role c d → Replays c → Replays d
Effects-Replays no_more h = h
Effects-Replays (first e rest) h = Effects-Replays rest (Effect-Replays e h)

Reachable-Replays : {F : Floats} {c : Campaign} → Reachable F c → Replays c
Reachable-Replays start = record { unused = λ e. refl; at = λ t j e. absurd (ground arith) }
Reachable-Replays (next r st) =
    Effects-Replays (CampaignStep-Effects st (Reachable-IsSerialized r)) (Reachable-Replays r)

-- In every history of commands and late saves of watchers, the last line of the journal about an
-- attempt gives the state that is recorded of it, and no line is about a key that is not recorded;
-- except that an audit may have marked a verified attempt as cleaned, with no line.
pub last_state_replays :
    {F : Floats} {c : Campaign} (s : CampaignState) (k : Text)
    → Reachable F c
    → c.state ≡ some s
    → Agrees (last_state k c.journal) (state_of (dict_get k s.attempts))
last_state_replays s k r here = (Reachable-Replays r).at s k here
