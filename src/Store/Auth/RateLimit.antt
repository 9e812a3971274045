-- ===== src/Store/Auth/RateLimit.antt =====
-- The sliding window of `allow_code_request`, over any interleaving of requests.
use nebius_serverless_challe.Prelude.{
  ℕ, ◌≤◌, ◌<◌, Text, ◌≡◌, refl, ◌∙◌, ◌⊎◌, inl, inr, Bool, true, false, ◌&&◌, List, [], ◌∷◌, ◌++◌,
  arith, leb, ◌==◌, if◌then◌else◌, Bool-cases, length, select, count_if, count_if-append,
  select-append,
}
use mathlib.Core.Path.{subst}
use nebius_serverless_challe.Store.Auth.{
  AuthState, dict_get-dict_set, times_of, in_window, allow_code_request,
}

-- The requests of all addresses, each with its time, and the times at which those of `email` were
-- let through, added to `seen`.
pub allowed_times : Text → ℕ → ℕ → List (Text × ℕ) → AuthState → List ℕ → List ℕ
allowed_times email limit window [] s seen = seen
allowed_times email limit window ((who, now) ∷ requests) s seen =
    let (allowed, s') = allow_code_request who limit window now s in
    allowed_times email limit window requests s'
      (if allowed && who == email then seen ++ now ∷ [] else seen)

-- Times never run back, from `start` on.
abbrev pub IsMonotone : ℕ → List (Text × ℕ) → Type 0
IsMonotone start [] = Unit
IsMonotone start ((_, now) ∷ requests) = (start ≤ now) × IsMonotone now requests

-- the time of the last request
abbrev pub last_time : ℕ → List (Text × ℕ) → ℕ
last_time start [] = start
last_time start ((_, now) ∷ requests) = last_time now requests

-- From time `start` on, the stored times are as good as all of them, and within the limit.
record IsTracked (email : Text) (limit window start : ℕ) (s : AuthState) (seen : List ℕ)
    : Type 0 where
  kept :
      (now : ℕ)
      → start ≤ now
      → select (in_window now window) (times_of email s) ≡ select (in_window now window) seen
  bounded : (now : ℕ) → start ≤ now → count_if (in_window now window) seen ≤ limit

length-select : {A : Type 0} (p : A → Bool) (xs : List A) → length (select p xs) ≡ count_if p xs
length-select p [] = refl
length-select p (x ∷ xs) = ground (arith, length-select p xs)

-- What left the window stays out of it.
select-select :
    (window start now : ℕ) (ts : List ℕ)
    → start ≤ now
    → select (in_window now window) (select (in_window start window) ts)
      ≡ select (in_window now window) ts
select-select window start now [] h = refl
select-select window start now (t ∷ ts) h = ground (arith, select-select window start now ts h)

count_if-window :
    (window start now : ℕ) (ts : List ℕ)
    → start ≤ now
    → count_if (in_window now window) ts ≤ count_if (in_window start window) ts
count_if-window window start now [] h = omega arith
count_if-window window start now (t ∷ ts) h = ground (arith, count_if-window window start now ts h)

module _ (email : Text) (limit window now : ℕ) (s : AuthState) where
  abbrev fresh : List ℕ
  fresh = select (in_window now window) (times_of email s)

  -- a request of another address
  times_of-other :
      (who : Text)
      → (who == email) ≡ false
      → times_of email (allow_code_request who limit window now s).1 ≡ times_of email s
  unfolding allow_code_request
  times_of-other who other = ground (
    arith,
    dict_get-dict_set who email (select (in_window now window) (times_of who s)) s.request_times,
    dict_get-dict_set who email (select (in_window now window) (times_of who s) ++ now ∷ [])
        s.request_times,
  )

  -- a request of this address
  own_cases :
      (((allow_code_request email limit window now s).0 ≡ false)
        × (times_of email (allow_code_request email limit window now s).1 ≡ fresh))
      ⊎ (((allow_code_request email limit window now s).0 ≡ true)
          × (times_of email (allow_code_request email limit window now s).1 ≡ fresh ++ now ∷ [])
          × (length fresh < limit))
  unfolding allow_code_request
  own_cases = elim (Bool-cases (leb limit (length fresh))) [
    | inl full ↦ inl (ground (arith, dict_get-dict_set email email fresh s.request_times))
    | inr room ↦
        inr (ground (arith, dict_get-dict_set email email (fresh ++ now ∷ []) s.request_times))
  ]

module _ (email : Text) (limit window start now : ℕ) (s : AuthState) (seen : List ℕ)
    (le : start ≤ now) (h : IsTracked email limit window start s seen) where
  other-IsTracked :
      (who : Text)
      → (who == email) ≡ false
      → IsTracked email limit window now (allow_code_request who limit window now s).1 seen
  other-IsTracked who other = record {
    kept = λ later k.
        rw (times_of-other email limit window now s who other) (h.kept later (omega arith));
    bounded = λ later k. h.bounded later (omega arith);
  }

  kept_fresh :
      (later : ℕ)
      → now ≤ later
      → select (in_window later window) (fresh email limit window now s)
        ≡ select (in_window later window) seen
  kept_fresh later k =
      select-select window now later (times_of email s) k ∙ h.kept later (omega arith)

  own-IsTracked :
      IsTracked email limit window now
        (allow_code_request email limit window now s).1
        (if (allow_code_request email limit window now s).0 then seen ++ now ∷ [] else seen)
  own-IsTracked = elim (own_cases email limit window now s) [
    | inl (refused, times) ↦ rw refused (record {
      kept = λ later k. rw times (kept_fresh later k);
      bounded = λ later k. h.bounded later (omega arith);
    })
    | inr (passed, times, room) ↦ rw passed (record {
      kept = λ later k. rw (
        times,
        select-append (in_window later window) (fresh email limit window now s) (now ∷ []),
        kept_fresh later k,
        ← select-append (in_window later window) seen (now ∷ []),
      );
      bounded = λ later k. ground (
        arith,
        count_if-append (in_window later window) seen (now ∷ []),
        count_if-window window now later seen k,
        length-select (in_window now window) seen,
        h.kept now le,
        room,
      );
    })
  ]

  -- any request
  step-IsTracked :
      (who : Text)
      → IsTracked email limit window now (allow_code_request who limit window now s).1 (
          if (allow_code_request who limit window now s).0 && who == email
          then seen ++ now ∷ []
          else seen)
  step-IsTracked who = elim (Bool-cases (who == email)) [
    | inl own ↦
        let same : email ≡ who = ground arith in
        subst
          (λ w. IsTracked email limit window now (allow_code_request w limit window now s).1 (
            if (allow_code_request w limit window now s).0 && w == email
            then seen ++ now ∷ []
            else seen))
          same (rw at_self own-IsTracked)
    | inr other ↦
        let skipped : ((allow_code_request who limit window now s).0 && who == email) ≡ false =
          ground arith in
        rw skipped (other-IsTracked who other)
  ]
    where
      at_self :
          ((allow_code_request email limit window now s).0 && email == email)
          ≡ (allow_code_request email limit window now s).0
      at_self = ground arith

tracked_run :
    (email : Text) (limit window start : ℕ) (requests : List (Text × ℕ)) (s : AuthState)
    (seen : List ℕ)
    → IsMonotone start requests
    → IsTracked email limit window start s seen
    → (later : ℕ) → last_time start requests ≤ later
    → count_if (in_window later window) (allowed_times email limit window requests s seen) ≤ limit
unfolding allowed_times
tracked_run email limit window start [] s seen m h later k = h.bounded later k
tracked_run email limit window start ((who, now) ∷ requests) s seen m h later k =
    tracked_run email limit window now requests _ _ m.1
      (step-IsTracked email limit window start now s seen m.0 h who) later k

-- However the requests of all addresses interleave, once they are made no window of the clock holds
-- more than the limit of requests that were let through for one address, as long as the clock does
-- not run back.
pub allow_code_request_limit :
    (email : Text) (limit window start : ℕ) (requests : List (Text × ℕ)) (s : AuthState)
    → times_of email s ≡ []
    → IsMonotone start requests
    → (later : ℕ) → last_time start requests ≤ later
    → count_if (in_window later window) (allowed_times email limit window requests s []) ≤ limit
allow_code_request_limit email limit window start requests s none_yet m later k =
    tracked_run email limit window start requests s [] m
      (record { kept = λ now le. rw none_yet; bounded = λ now le. omega arith }) later k
