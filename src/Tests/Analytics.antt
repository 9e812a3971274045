-- ===== src/Tests/Analytics.antt =====
-- The analytics of saas/backend/app at concrete inputs.
use nebius_serverless_challe.Prelude.{ℕ, ◌≡◌, refl, false, Option, none, some, [], arith, find?}
use nebius_serverless_challe.Analytics.{
  Analytics, Hit, record_hit, daily_rollup_and_prune, daily_row, of_day, prune_before, roll_up,
}
use nebius_serverless_challe.Analytics.Visits.{IsAnalytics, record_hit-IsAnalytics}
use nebius_serverless_challe.Analytics.Rollup.{daily_rollup_counts}

abbrev no_visits : Analytics
no_visits = record { visits = []; page_views = []; daily = [] }

abbrev hit : Hit
hit = record {
  view = 1;
  entity_id = none;
  ip_hash = 2;
  user_agent = 3;
  referrer = 4;
  is_bot = false;
}

no_visits-IsAnalytics : IsAnalytics 0 no_visits
no_visits-IsAnalytics = record { primary_key = λ i. omega arith; past = tt; linked = tt }

-- One visit on the first day, and one on the second.
abbrev two_days : Analytics
unfolding record_hit
two_days = (record_hit 1800 none hit 100000 11 (record_hit 1800 none hit 50000 10 no_visits).1).1

record_hit-IsAnalytics_example :
    IsAnalytics 50000 (record_hit 1800 (some 10) hit 50000 11 no_visits).1
record_hit-IsAnalytics_example =
    record_hit-IsAnalytics 1800 (some 10) hit 0 50000 11 no_visits (omega arith)
      no_visits-IsAnalytics

daily_rollup_counts_example :
    find? (of_day 0) (daily_rollup_and_prune 30 100000 two_days).daily ≡ some (daily_row 0 two_days)
unfolding record_hit two_days
daily_rollup_counts_example = daily_rollup_counts 30 100000 0 two_days

-- A later run, after part of the day was pruned, replaces the day's counts by those of what is left.
abbrev one_day : Analytics
unfolding record_hit
one_day = (record_hit 1800 none hit 60000 11 (record_hit 1800 none hit 50000 10 no_visits).1).1

abbrev visits_of_day : ℕ → Analytics → Option ℕ
visits_of_day day s = elim (find? (of_day day) s.daily) [ none ↦ none | some r ↦ some r.visits ]

rollup_twice_test :
    (visits_of_day 0 (daily_rollup_and_prune 1 141400 one_day) ≡ some 2)
    × (visits_of_day 0 (daily_rollup_and_prune 1 141500 (daily_rollup_and_prune 1 141400 one_day))
        ≡ some 1)
unfolding record_hit one_day daily_rollup_and_prune prune_before roll_up daily_row
rollup_twice_test = (refl, refl)
