-- ===== src/CustomTraining/Readiness.antt =====
-- When a setup can be trained, and when it can be prepared.
use nebius_serverless_challe.Prelude.{
  Text, ◌≡◌, refl, ◌↔◌, inl, inr, Bool, true, Option, none, some, arith, Bool-cases, Option-cases,
}
use nebius_serverless_challe.Models.{PreparationState, PreparationAttempt, RobotAsset, RobotSetup}
use nebius_serverless_challe.Orchestration.Submission.{Contract}
use nebius_serverless_challe.CustomTraining.{
  WorldNames, eligibility, Digests, preparation_fingerprint, current_attempt, project_current,
  project_setup_readiness,
}

-- What makes a setup trainable.
pub record IsTrainable (w : WorldNames) (d : Digests) (c : Contract) (setup : RobotSetup)
    (robot : RobotAsset) (latest : Option PreparationAttempt) (enabled : Bool) (image : Text)
    : Type 0 where
  pub eligible : (eligibility w setup enabled).eligible ≡ true
  pub attempt : PreparationAttempt
  pub is_latest : latest ≡ some attempt
  pub accepted : attempt.state ≡ PreparationState.accepted
  pub current : preparation_fingerprint d c robot setup image ≡ some attempt.fingerprint

ready_current :
    (setup : RobotSetup) (fingerprint : Text) (latest : Option PreparationAttempt)
    → (project_current setup (current_attempt fingerprint latest)).can_start_training ≡ true
    → (a : PreparationAttempt) × (latest ≡ some a)
      × (a.state ≡ PreparationState.accepted)
      × (a.fingerprint ≡ fingerprint)
ready_current setup fingerprint none h = absurd (ground arith)
ready_current setup fingerprint (some a) h = (a, refl, ground arith, ground arith)

-- A setup is offered for training exactly if it is eligible, and the latest attempt is accepted and
-- is for the fingerprint of the robot, the setup and the image as they are now. With a latest
-- attempt for another fingerprint it is thus not offered, whatever older attempts were accepted.
pub project_setup_readiness-IsTrainable :
    (w : WorldNames) (d : Digests) (c : Contract) (setup : RobotSetup) (robot : RobotAsset)
    (latest : Option PreparationAttempt) (enabled : Bool) (image : Text) (out : RobotSetup)
    → project_setup_readiness w d c setup robot latest enabled image ≡ some out
    → (out.can_start_training ≡ true) ↔ IsTrainable w d c setup robot latest enabled image
unfolding project_setup_readiness
project_setup_readiness-IsTrainable w d c setup robot latest enabled image out h =
    elim (Bool-cases (eligibility w setup enabled).eligible) [
      | inr barred ↦
          (λ start. absurd (ground arith), λ t. absurd (let e = t.eligible in ground arith))
      | inl allowed ↦ elim (Option-cases (preparation_fingerprint d c robot setup image)) [
        | inl bad ↦ absurd (ground arith)
        | inr (fingerprint, good) ↦
            let same : out ≡ project_current setup (current_attempt fingerprint latest) =
              ground arith in
            (
              λ start.
                  let (a, l, s, f) = ready_current setup fingerprint latest (rw same at start) in
                  record {
                    eligible = allowed;
                    attempt = a;
                    is_latest = l;
                    accepted = s;
                    current = ground arith;
                  },
              λ t.
                  let l = t.is_latest in
                  let s = t.accepted in let f = t.current in rw (same, l) (ground arith),
            )
      ]
    ]
