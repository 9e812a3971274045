-- ===== src/Analytics/Rollup.antt =====
-- What the roll-up writes for each day.
use nebius_serverless_challe.Prelude.{
  ℕ, ◌≡◌, refl, ◌∙◌, inl, inr, true, ◌&&◌, some, List, [], ◌∷◌, ◌++◌, arith, ltb, ◌==◌,
  if◌then◌else◌, Bool-cases, find?, any, delete_where,
}
use mathlib.Core.Path.{subst}
use nebius_serverless_challe.Analytics.{
  Visit, Daily, Analytics, day_of, distinct, seen_on, daily_row, of_day, roll_up, days_before,
  prune_before, daily_rollup_and_prune,
}

find?-replaced :
    (day d : ℕ) (row : Daily) (daily : List Daily)
    → row.day ≡ day
    → find? (of_day d) (delete_where (of_day day) daily ++ row ∷ [])
      ≡ (if day == d then some row else find? (of_day d) daily)
find?-replaced day d row [] same = ground arith
find?-replaced day d row (r ∷ daily) same = ground (arith, find?-replaced day d row daily same)

find?-roll_up :
    (d : ℕ) (days : List ℕ) (s : Analytics) (daily : List Daily)
    → find? (of_day d) (roll_up days s daily)
      ≡ (if any (λ k. k == d) days then some (daily_row d s) else find? (of_day d) daily)
unfolding roll_up daily_row
find?-roll_up d [] s daily = refl
find?-roll_up d (day ∷ days) s daily =
    find?-roll_up d days s (delete_where (of_day day) daily ++ daily_row day s ∷ [])
    ∙ ground (arith, find?-replaced day d (daily_row day s) daily refl)

any-distinct : (d : ℕ) (ns : List ℕ) → any (λ k. k == d) (distinct ns) ≡ any (λ k. k == d) ns
any-distinct d [] = refl
any-distinct d (n ∷ ns) = elim (Bool-cases (any (λ k. k == n) ns)) [
  | inl again ↦ elim (Bool-cases (n == d)) [
    | inl same ↦
        let e : n ≡ d = ground arith in
        let there = subst (λ x. any (λ k. k == x) ns ≡ true) e again in
        rw again (ground (arith, any-distinct d ns, there))
    | inr other ↦ rw again (ground (arith, any-distinct d ns))
  ]
  | inr new ↦ rw new (ground (arith, any-distinct d ns))
]

any-days_before :
    (today d : ℕ) (vs : List Visit)
    → any (λ k. k == d) (days_before today vs) ≡ (ltb d today && any (seen_on d) vs)
any-days_before today d [] = ground arith
any-days_before today d (v ∷ vs) = ground (arith, any-days_before today d vs)

-- The daily counts after a run: a day before today that still has a visit gets the counts of what is
-- stored when the run starts, whatever its counts were; every other day keeps its counts.
pub daily_rollup_counts :
    (retention_days now d : ℕ) (s : Analytics)
    → find? (of_day d) (daily_rollup_and_prune retention_days now s).daily ≡ (
        if ltb d (day_of now) && any (seen_on d) s.visits
        then some (daily_row d s)
        else find? (of_day d) s.daily)
unfolding daily_rollup_and_prune prune_before
daily_rollup_counts retention_days now d s =
    let days = days_before (day_of now) s.visits in
    rw (
      find?-roll_up d (distinct days) s s.daily,
      any-distinct d days,
      any-days_before (day_of now) d s.visits,
    )
