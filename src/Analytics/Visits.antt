-- ===== src/Analytics/Visits.antt =====
-- What recording and pruning keep of the visits and their page views.
use nebius_serverless_challe.Prelude.{
  ℕ, ◌-◌, ◌*◌, ◌≤◌, Text, empty, ◌≡◌, refl, inl, inr, Bool, true, false, ◌&&◌, Option, none, some,
  List, [], ◌∷◌, ◌++◌, arith, ltb, leb, ◌==◌, Bool-cases, Option-cases, All, All-append, All-map,
  find?, count_if, any, update_where, delete_where, count_if-append, find?_sound, All-delete_where,
  any-append, count_if_of_any-false, any_of_found,
}
use nebius_serverless_challe.Analytics.{
  Visit, PageView, Analytics, Hit, has_id, reusable, page_view, open_visit, continue_visit,
  record_hit, prune_before, daily_rollup_and_prune, day_seconds,
}

-- The visit of a page view, which was last seen no earlier than the view.
abbrev pub visit_of : PageView → Visit → Bool
visit_of p v = has_id p.visit_id v && leb p.created_at v.last_seen

-- At a clock's reading: an id is used once, no visit was last seen in the future, and each page view
-- has its visit.
pub record IsAnalytics (now : ℕ) (s : Analytics) : Type 0 where
  pub primary_key : (i : Text) → count_if (has_id i) s.visits ≤ 1
  pub past : All (λ (v : Visit). v.last_seen ≤ now) s.visits
  pub linked : All (λ (p : PageView). any (visit_of p) s.visits ≡ true) s.page_views

count_if-delete_where :
    (p q : Visit → Bool) (vs : List Visit) → count_if p (delete_where q vs) ≤ count_if p vs
count_if-delete_where p q [] = omega arith
count_if-delete_where p q (v ∷ vs) = ground (arith, count_if-delete_where p q vs)

any-kept :
    (p : PageView) (cutoff : ℕ) (vs : List Visit)
    → ltb p.created_at cutoff ≡ false
    → any (visit_of p) vs ≡ true
    → any (visit_of p) (delete_where (λ (v : Visit). ltb v.last_seen cutoff) vs) ≡ true
any-kept p cutoff [] young h = absurd (ground arith)
any-kept p cutoff (v ∷ vs) young h = ground (arith, any-kept p cutoff vs young)

All-kept :
    (cutoff : ℕ) (vs : List Visit) (ps : List PageView)
    → All (λ (p : PageView). any (visit_of p) vs ≡ true) ps
    → All
        (λ (p : PageView).
          any (visit_of p) (delete_where (λ (v : Visit). ltb v.last_seen cutoff) vs) ≡ true)
        (delete_where (λ (p : PageView). ltb p.created_at cutoff) ps)
All-kept cutoff vs [] h = tt
All-kept cutoff vs (p ∷ ps) (q, rest) = elim (Bool-cases (ltb p.created_at cutoff)) [
  | inl old ↦ rw old (All-kept cutoff vs ps rest)
  | inr young ↦ rw young (any-kept p cutoff vs young q, All-kept cutoff vs ps rest)
]

-- Pruning keeps an analytics table well formed: a page view that is kept has its visit kept, too.
pub daily_rollup_and_prune-IsAnalytics :
    (retention_days now : ℕ) (s : Analytics)
    → IsAnalytics now s
    → IsAnalytics now (daily_rollup_and_prune retention_days now s)
unfolding daily_rollup_and_prune prune_before
daily_rollup_and_prune-IsAnalytics retention_days now s h = record {
  primary_key = λ i.
      let fewer =
        count_if-delete_where (has_id i)
          (λ (v : Visit). ltb v.last_seen (now - retention_days * day_seconds)) s.visits in
      let once = h.primary_key i in omega arith;
  past = All-delete_where (λ (v : Visit). v.last_seen ≤ now) _ s.visits h.past;
  linked = All-kept (now - retention_days * day_seconds) s.visits s.page_views h.linked;
}

All-later :
    (now later : ℕ) (vs : List Visit)
    → now ≤ later
    → All (λ (v : Visit). v.last_seen ≤ now) vs
    → All (λ (v : Visit). v.last_seen ≤ later) vs
All-later now later vs le h =
    All-map (λ (v : Visit). v.last_seen ≤ now) (λ (v : Visit). v.last_seen ≤ later)
      (λ v p. omega arith) vs h

open_visit-IsAnalytics :
    (i : Text) (hit : Hit) (now later : ℕ) (s : Analytics)
    → now ≤ later
    → IsAnalytics now s
    → IsAnalytics later (open_visit i hit later s).1
open_visit-IsAnalytics i hit now later s le h = elim (Bool-cases (any (has_id i) s.visits)) [
  | inl taken ↦ rw taken (record {
    primary_key = h.primary_key;
    past = All-later now later s.visits le h.past;
    linked = h.linked;
  })
  | inr new ↦ rw new (record {
    primary_key = λ k.
        let appended = count_if-append (has_id k) s.visits (visit ∷ []) in
        let once = h.primary_key k in
        let unused = unused_id k new in ground (arith, appended, once, unused);
    past =
        All-append (λ (v : Visit). v.last_seen ≤ later) s.visits (visit ∷ [])
          (All-later now later s.visits le h.past) (ground arith, tt);
    linked =
        All-append (λ (p : PageView). any (visit_of p) (s.visits ++ visit ∷ []) ≡ true) s.page_views
          (page_view i hit later ∷ [])
          (All-map (λ (p : PageView). any (visit_of p) s.visits ≡ true)
            (λ (p : PageView). any (visit_of p) (s.visits ++ visit ∷ []) ≡ true)
            (λ p q. ground (arith, any-append (visit_of p) s.visits (visit ∷ []), q)) s.page_views
            h.linked)
          (ground (arith, any-append (visit_of (page_view i hit later)) s.visits (visit ∷ [])), tt);
  })
]
  where
    visit : Visit
    visit = record {
      id = i;
      first_seen = later;
      last_seen = later;
      ip_hash = hit.ip_hash;
      user_agent = hit.user_agent;
      referrer = hit.referrer;
      is_bot = hit.is_bot;
    }

    unused_id :
        (k : Text)
        → any (has_id i) s.visits ≡ false
        → (i == k) ≡ true
        → count_if (has_id k) s.visits ≡ 0
    unused_id k new same =
        count_if_of_any-false (has_id i) (has_id k) s.visits (λ v other. ground arith) new

count_if-touched :
    (i k : Text) (later : ℕ) (vs : List Visit)
    → count_if (has_id k) (update_where (has_id i) (λ v. record v { last_seen = later }) vs)
      ≡ count_if (has_id k) vs
count_if-touched i k later [] = refl
count_if-touched i k later (v ∷ vs) = ground (arith, count_if-touched i k later vs)

All-touched :
    (i : Text) (later : ℕ) (vs : List Visit)
    → All (λ (v : Visit). v.last_seen ≤ later) vs
    → All
        (λ (v : Visit). v.last_seen ≤ later)
        (update_where (has_id i) (λ v. record v { last_seen = later }) vs)
All-touched i later [] h = tt
All-touched i later (v ∷ vs) (p, rest) = elim (Bool-cases (has_id i v)) [
  | inl touched ↦ rw touched (ground arith, All-touched i later vs rest)
  | inr other ↦ rw other (p, All-touched i later vs rest)
]

any-touched :
    (i : Text) (later : ℕ) (p : PageView) (vs : List Visit)
    → All (λ (v : Visit). v.last_seen ≤ later) vs
    → any (visit_of p) vs ≡ true
    → any (visit_of p) (update_where (has_id i) (λ v. record v { last_seen = later }) vs) ≡ true
any-touched i later p [] past h = absurd (ground arith)
any-touched i later p (v ∷ vs) (q, rest) h = ground (arith, q, any-touched i later p vs rest)

any-continued :
    (i : Text) (hit : Hit) (later : ℕ) (vs : List Visit)
    → any (has_id i) vs ≡ true
    → any
        (visit_of (page_view i hit later))
        (update_where (has_id i) (λ v. record v { last_seen = later }) vs)
      ≡ true
any-continued i hit later [] h = absurd (ground arith)
any-continued i hit later (v ∷ vs) h = ground (arith, any-continued i hit later vs)

continue_visit-IsAnalytics :
    (i : Text) (hit : Hit) (now later : ℕ) (s : Analytics)
    → now ≤ later
    → any (has_id i) s.visits ≡ true
    → IsAnalytics now s
    → IsAnalytics later (continue_visit i hit later s).1
continue_visit-IsAnalytics i hit now later s le there h = record {
  primary_key = λ k.
      let same = count_if-touched i k later s.visits in let once = h.primary_key k in rw same once;
  past = All-touched i later s.visits past;
  linked =
      All-append (λ (p : PageView). any (visit_of p) touched ≡ true) s.page_views
        (page_view i hit later ∷ [])
        (All-map (λ (p : PageView). any (visit_of p) s.visits ≡ true)
          (λ (p : PageView). any (visit_of p) touched ≡ true)
          (λ p q. any-touched i later p s.visits past q) s.page_views h.linked)
        (any-continued i hit later s.visits there, tt);
}
  where
    past : All (λ (v : Visit). v.last_seen ≤ later) s.visits
    past = All-later now later s.visits le h.past

    touched : List Visit
    touched = update_where (has_id i) (λ v. record v { last_seen = later }) s.visits

-- Every recorded page view, whether it continues a visit, opens one or is refused, keeps the tables
-- well formed, as long as the clock does not run back.
pub record_hit-IsAnalytics :
    (gap : ℕ) (visit_id : Option Text) (hit : Hit) (now later : ℕ) (fresh : Text) (s : Analytics)
    → now ≤ later
    → IsAnalytics now s
    → IsAnalytics later (record_hit gap visit_id hit later fresh s).1
unfolding record_hit
record_hit-IsAnalytics gap none hit now later fresh s le h =
    open_visit-IsAnalytics fresh hit now later s le h
record_hit-IsAnalytics gap (some i) hit now later fresh s le h = elim (Bool-cases (i == empty)) [
  | inl blank ↦ rw blank (open_visit-IsAnalytics fresh hit now later s le h)
  | inr named ↦ elim (Option-cases (find? (has_id i) s.visits)) [
    | inl unknown ↦ rw (named, unknown) (open_visit-IsAnalytics i hit now later s le h)
    | inr (v, known) ↦ elim (Bool-cases (reusable gap hit later v)) [
      | inl again ↦
          rw (named, known, again)
            (continue_visit-IsAnalytics i hit now later s le
              (any_of_found (has_id i) (has_id i) s.visits v known
                (find?_sound (has_id i) s.visits v known))
              h)
      | inr stale ↦ rw (named, known, stale) (open_visit-IsAnalytics fresh hit now later s le h)
    ]
  ]
]
