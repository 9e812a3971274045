-- ===== src/Campaign/State/Transitions.antt =====
-- What the table of transitions allows.
use nebius_serverless_challe.Prelude.{◌≡◌, refl, ◌⊎◌, inl, true, arith}
use nebius_serverless_challe.Campaign.State.{
  AttemptState, planned, preflighted, submitted, running, finalizing, verified, accepted, rejected,
  needs_human, cleaned, is_transition, is_active_state,
}

-- A state becomes active only from an active state, or by the submission of a preflighted attempt.
pub active_before :
    (before after : AttemptState)
    → is_transition before after ≡ true
    → is_active_state after ≡ true
    → (is_active_state before ≡ true) ⊎ ((before ≡ preflighted) × (after ≡ submitted))
active_before planned b t a = ground arith
active_before preflighted b t a = ground arith
active_before submitted b t a = inl refl
active_before running b t a = inl refl
active_before finalizing b t a = inl refl
active_before verified b t a = ground arith
active_before accepted b t a = ground arith
active_before rejected b t a = ground arith
active_before needs_human b t a = ground arith
active_before cleaned b t a = ground arith
