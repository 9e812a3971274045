-- ===== src/Campaign.antt =====
-- sim2policy/src/sim2policy/campaign_state.py and showcase_campaign.py: the controller of a campaign
-- of remote runs, which an operator drives command by command.
pub mod State
pub mod Commands
pub mod Planning
pub mod Submission
pub mod Watching
pub mod Verification
pub mod Examples
pub mod Cleanup
pub mod Selecting
pub mod Serialized
pub mod Rules
pub mod Effects
pub mod Refinement
pub mod History
