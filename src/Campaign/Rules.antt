-- ===== src/Campaign/Rules.antt =====
-- Rules for what a command of sim2policy/src/sim2policy/showcase_campaign.py ensures of its reply and
-- of the files that it leaves, one for each way to write a command.
use nebius_serverless_challe.Prelude.{
  Text, String, ◌≡◌, refl, inl, inr, Bool, true, false, Option, none, some, if◌then◌else◌,
  Bool-cases,
}
use nebius_serverless_challe.Campaign.State.{Attempt, CampaignState, Campaign, dict_get}
use nebius_serverless_challe.Campaign.Commands.{
  Reply, raised, may_follow, state_of, Run, raise_error, with_state, saved, save_entry, with_entry,
  save_attempt,
}

-- What a command goes on with ensures, in the state that it read or saved.
pub record Ensures (R : Campaign → Reply × Campaign → Type 0) (s : CampaignState) (run : Run)
    : Type 0 where
  pub outcome : (c : Campaign) → c.state ≡ some s → R c (run c)

module _ {R : Campaign → Reply × Campaign → Type 0} where
  pub Ensures-if :
      (s : CampaignState) (b : Bool) (m n : Run)
      → (b ≡ true → Ensures R s m)
      → (b ≡ false → Ensures R s n)
      → Ensures R s (λ c. if b then m c else n c)
  Ensures-if s true m n km kn = km refl
  Ensures-if s false m n km kn = kn refl

  pub Ensures-option {ℓ} :
      {A : Type ℓ} (s : CampaignState) (o : Option A) (m : Run) (n : A → Run)
      → Ensures R s m
      → ((a : A) → o ≡ some a → Ensures R s (n a))
      → Ensures R s (λ c. elim o [ none ↦ m c | some a ↦ n a c ])
  Ensures-option s none m n km kn = km
  Ensures-option s (some a) m n km kn = kn a refl

  with_option :
      (o : Option CampaignState) (next : CampaignState → Run) (c : Campaign)
      → c.state ≡ o
      → R c (raised, c)
      → ((s : CampaignState) → c.state ≡ some s → Ensures R s (next s))
      → R c (elim o [ none ↦ raise_error c | some s ↦ next s c ])
  with_option none next c here r k = r
  with_option (some s) next c here r k = (k s here).outcome c here

  -- The rule for the state that a command reads.
  pub Ensures-with_state :
      (next : CampaignState → Run) (c : Campaign)
      → R c (raised, c)
      → ((s : CampaignState) → c.state ≡ some s → Ensures R s (next s))
      → R c (with_state next c)
  Ensures-with_state next c r k = with_option c.state next c refl r k

  -- The rule for `_save_attempt`.
  pub Ensures-save_attempt :
      (command : String) (key : Text) (a : Attempt) (s : CampaignState) (next : CampaignState → Run)
      → ((c : Campaign) → c.state ≡ some s → R c (raised, c))
      → (may_follow (state_of (dict_get key s.attempts)) a.state ≡ true
          → (c : Campaign) → c.state ≡ some s
          → R c (next (saved key a s) (with_entry (save_entry command key a s) (saved key a s) c)))
      → Ensures R s (save_attempt command key a s next)
  unfolding save_attempt
  Ensures-save_attempt command key a s next refused k = record {
    outcome = λ c here.
        elim (Bool-cases (may_follow (state_of (dict_get key s.attempts)) a.state)) [
          | inl allowed ↦ rw allowed (k allowed c here)
          | inr forbidden ↦ rw forbidden (refused c here)
        ];
  }
