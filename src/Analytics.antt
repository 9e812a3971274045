-- ===== src/Analytics.antt =====
-- `AnalyticsStore` of saas/backend/app/store.py and `daily_rollup_and_prune` of analytics.py: visits,
-- page views and their daily counts. Times are whole seconds; the fresh id of a visit is an argument.
pub mod Visits
pub mod Rollup
use nebius_serverless_challe.Prelude.{
  ℕ, ◌+◌, ◌-◌, ◌*◌, ◌/◌, Text, empty, Bool, ◌&&◌, Option, none, some, List, [], ◌∷◌, ◌++◌, ltb, leb,
  ◌==◌, if◌then◌else◌, length, select, find?, count_if, any, update_where, delete_where,
}

pub record Visit : Type 0 where
  pub id : Text
  pub first_seen : ℕ
  pub last_seen : ℕ
  pub ip_hash : Text
  pub user_agent : Text
  pub referrer : Text
  pub is_bot : Bool

pub record PageView : Type 0 where
  pub visit_id : Text
  pub view : Text
  pub entity_id : Option Text
  pub created_at : ℕ

pub record Daily : Type 0 where
  pub day : ℕ
  pub visits : ℕ
  pub page_views : ℕ
  pub unique_visitors : ℕ
  pub bot_visits : ℕ

pub record Analytics : Type 0 where
  pub visits : List Visit
  pub page_views : List PageView
  pub daily : List Daily

-- The arguments of `record` that are stored as they come.
pub record Hit : Type 0 where
  pub view : Text
  pub entity_id : Option Text
  pub ip_hash : Text
  pub user_agent : Text
  pub referrer : Text
  pub is_bot : Bool

abbrev pub has_id : Text → Visit → Bool
has_id i v = v.id == i

-- `reusable`; a clock that ran back gives 0 here and a negative number there, both within the gap.
abbrev pub reusable : ℕ → Hit → ℕ → Visit → Bool
reusable gap hit now v =
    leb (now - v.last_seen) gap && v.ip_hash == hit.ip_hash && v.user_agent == hit.user_agent

abbrev pub page_view : Text → Hit → ℕ → PageView
page_view i hit now = record {
  visit_id = i;
  view = hit.view;
  entity_id = hit.entity_id;
  created_at = now;
}

-- the `INSERT` of a visit and of its page view, with the primary key of the visits
abbrev pub open_visit : Text → Hit → ℕ → Analytics → Option Text × Analytics
open_visit i hit now s =
    let visit : Visit = record {
      id = i;
      first_seen = now;
      last_seen = now;
      ip_hash = hit.ip_hash;
      user_agent = hit.user_agent;
      referrer = hit.referrer;
      is_bot = hit.is_bot;
    } in
    if any (has_id i) s.visits then (none, s) else (
      some i,
      record s {
        visits = s.visits ++ visit ∷ [];
        page_views = s.page_views ++ page_view i hit now ∷ [];
      },
    )

-- the `UPDATE` of a visit and the `INSERT` of its page view
abbrev pub continue_visit : Text → Hit → ℕ → Analytics → Option Text × Analytics
continue_visit i hit now s = (
  some i,
  record s {
    visits = update_where (has_id i) (λ v. record v { last_seen = now }) s.visits;
    page_views = s.page_views ++ page_view i hit now ∷ [];
  },
)

-- `record`: the visit's id, or `none` for an `IntegrityError`, which is rolled back.
unfoldable pub record_hit : ℕ → Option Text → Hit → ℕ → Text → Analytics → Option Text × Analytics
record_hit gap none hit now fresh s = open_visit fresh hit now s
record_hit gap (some i) hit now fresh s =
    if i == empty then open_visit fresh hit now s else elim (find? (has_id i) s.visits) [
      | none ↦ open_visit i hit now s
      | some v ↦
          if reusable gap hit now v then continue_visit i hit now s else open_visit fresh hit now s
    ]

abbrev pub day_seconds : ℕ
day_seconds = 24 * 60 * 60

abbrev pub day_of : ℕ → ℕ
day_of t = t / day_seconds

-- `SELECT DISTINCT`
abbrev pub distinct : List ℕ → List ℕ
distinct [] = []
distinct (n ∷ ns) = if any (λ k. k == n) ns then distinct ns else n ∷ distinct ns

abbrev pub seen_on : ℕ → Visit → Bool
seen_on day v = day_of v.first_seen == day

abbrev pub hashes : List Visit → List ℕ
hashes [] = []
hashes (v ∷ vs) = v.ip_hash ∷ hashes vs

-- the row that the roll-up computes for a day
unfoldable pub daily_row : ℕ → Analytics → Daily
daily_row day s = record {
  day = day;
  visits = count_if (seen_on day) s.visits;
  page_views = count_if (λ (p : PageView). day_of p.created_at == day) s.page_views;
  unique_visitors = length (distinct (hashes (select (seen_on day) s.visits)));
  bot_visits = count_if (λ v. seen_on day v && v.is_bot) s.visits;
}

abbrev pub of_day : ℕ → Daily → Bool
of_day day r = r.day == day

-- `INSERT OR REPLACE` for each day
unfoldable pub roll_up : List ℕ → Analytics → List Daily → List Daily
roll_up [] s daily = daily
roll_up (day ∷ days) s daily =
    roll_up days s (delete_where (of_day day) daily ++ daily_row day s ∷ [])

abbrev pub days_before : ℕ → List Visit → List ℕ
days_before today [] = []
days_before today (v ∷ vs) =
    if ltb (day_of v.first_seen) today
    then day_of v.first_seen ∷ days_before today vs
    else days_before today vs

-- The batches of 500 end when a statement deletes nothing: all rows before the cutoff are gone.
unfoldable pub prune_before : ℕ → Analytics → Analytics
prune_before cutoff s = record s {
  page_views = delete_where (λ (p : PageView). ltb p.created_at cutoff) s.page_views;
  visits = delete_where (λ (v : Visit). ltb v.last_seen cutoff) s.visits;
}

unfoldable pub daily_rollup_and_prune : ℕ → ℕ → Analytics → Analytics
daily_rollup_and_prune retention_days now s =
    let days = distinct (days_before (day_of now) s.visits) in
    prune_before (now - retention_days * day_seconds) (record s { daily = roll_up days s s.daily })
