-- ===== src/Campaign/Selecting/Ranking.antt =====
-- That the ranking of sim2policy/src/sim2policy/showcase_campaign.py is that of
-- checkpoint_selection.py.
use nebius_serverless_challe.Prelude.{ℕ, ◌≡◌, refl, some}
use nebius_serverless_challe.Selection.{
  Floats, Kind, by_mean_reward, by_locomotion, unknown_kind, Aggregate, aggregate_key,
}
use nebius_serverless_challe.Campaign.Selecting.{RunAggregate, campaign_rank_key}

module _ (F : Floats) where
  -- an aggregate as a run's metrics record it
  abbrev pub recorded_aggregate : Aggregate F → RunAggregate F
  recorded_aggregate a = record {
    mean_reward_of = some a.mean_reward_of;
    mean_episode_length_of = some a.mean_episode_length_of;
    mean_velocity_of = some a.mean_velocity_of;
    min_velocity_of = some a.min_velocity_of;
    no_fall_count = some a.no_fall_count;
  }

  -- On an aggregate that a run recorded in full, the ranking key of the campaign across seeds is the
  -- ranking key of the selection within the run, for every kind, and both refuse the same kinds.
  pub campaign_rank_key-aggregate_key :
      (a : Aggregate F) (kind : Kind) (step : ℕ)
      → campaign_rank_key F (recorded_aggregate a) kind step ≡ aggregate_key F a step kind
  unfolding campaign_rank_key
  campaign_rank_key-aggregate_key a by_mean_reward step = refl
  campaign_rank_key-aggregate_key a by_locomotion step = refl
  campaign_rank_key-aggregate_key a unknown_kind step = refl
