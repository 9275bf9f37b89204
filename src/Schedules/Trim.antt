-- ===== src/Schedules/Trim.antt =====
-- Which runs the trim of `record_run` leaves in the table.
use bolodb.Prelude.{
  ℕ, zero, suc, ◌≤◌, ◌<◌, ◌≡◌, refl, Bool, true, not, ◌&&◌, ◌⊎◌, List, [], ◌∷◌, map, arith, inl,
  inr, Bool-cases, take, length, filter_by, contains, All, All-imp, All-filter_by,
}
use bolodb.Datetime.{before, at_most}
use bolodb.Schedules.{
  ScheduleRun, Tables, run_of, run_history_limit, insert_latest, latest_first, kept_ids, record_run,
}
use bolodb.Schedules.History.{IsConsistent, record_run-history}

-- `r` did not start after `q`.
abbrev pub NoLater : ScheduleRun → ScheduleRun → Type 0
NoLater r q = at_most r.started_at q.started_at ≡ true

abbrev IsLatestFirst : List ScheduleRun → Type 0
IsLatestFirst [] = Unit
IsLatestFirst (r ∷ rows) = All (λ q. NoLater q r) rows × IsLatestFirst rows

NoLater-trans : (a b c : ScheduleRun) → NoLater a b → NoLater b c → NoLater a c
unfolding at_most
NoLater-trans a b c h k = ground arith

All-NoLater-trans :
    (a b : ScheduleRun) (rows : List ScheduleRun)
    → NoLater a b
    → All (λ q. NoLater q a) rows
    → All (λ q. NoLater q b) rows
All-NoLater-trans a b [] h k = tt
All-NoLater-trans a b (q ∷ rows) h k = (NoLater-trans q a b k.0 h, All-NoLater-trans a b rows h k.1)

module _ (P : ScheduleRun → Type 0) where
  All-insert_latest :
      (r : ScheduleRun) (rows : List ScheduleRun) → P r → All P rows → All P (insert_latest r rows)
  unfolding insert_latest
  All-insert_latest r [] p h = (p, tt)
  All-insert_latest r (q ∷ rows) p h = elim (Bool-cases (before r.started_at q.started_at)) [
    | inl earlier ↦ rw earlier (h.0, All-insert_latest r rows p h.1)
    | inr later ↦ rw later (p, h)
  ]

  insert_latest-All :
      (r : ScheduleRun) (rows : List ScheduleRun) → All P (insert_latest r rows) → P r × All P rows
  unfolding insert_latest
  insert_latest-All r [] h = h
  insert_latest-All r (q ∷ rows) h = elim (Bool-cases (before r.started_at q.started_at)) [
    | inl earlier ↦
        let both : P q × All P (insert_latest r rows) = rw earlier at h in
        let rest = insert_latest-All r rows both.1 in (rest.0, (both.0, rest.1))
    | inr later ↦ rw later at h
  ]

  latest_first-All : (rows : List ScheduleRun) → All P (latest_first rows) → All P rows
  unfolding latest_first
  latest_first-All [] h = tt
  latest_first-All (r ∷ rows) h =
      let both = insert_latest-All r (latest_first rows) h in (both.0, latest_first-All rows both.1)

insert_latest-IsLatestFirst :
    (r : ScheduleRun) (rows : List ScheduleRun)
    → IsLatestFirst rows
    → IsLatestFirst (insert_latest r rows)
unfolding insert_latest at_most
insert_latest-IsLatestFirst r [] h = (tt, tt)
insert_latest-IsLatestFirst r (q ∷ rows) h = elim (Bool-cases (before r.started_at q.started_at)) [
  | inl earlier ↦ rw earlier (
    All-insert_latest (λ x. NoLater x q) r rows (ground arith) h.0,
    insert_latest-IsLatestFirst r rows h.1,
  )
  | inr later ↦
      let no_later : NoLater q r = ground arith in
      rw later ((no_later, All-NoLater-trans q r rows no_later h.0), h)
]

latest_first-IsLatestFirst : (rows : List ScheduleRun) → IsLatestFirst (latest_first rows)
unfolding latest_first
latest_first-IsLatestFirst [] = tt
latest_first-IsLatestFirst (r ∷ rows) =
    insert_latest-IsLatestFirst r (latest_first rows) (latest_first-IsLatestFirst rows)

abbrev pub ids : List ScheduleRun → List ℕ
ids = map (λ (r : ScheduleRun). r.id)

-- How many runs started no earlier than `r`.
abbrev pub no_earlier : ScheduleRun → List ScheduleRun → ℕ
no_earlier r rows = length (filter_by (λ (q : ScheduleRun). at_most r.started_at q.started_at) rows)

counted :
    (p : ScheduleRun → Bool) (r : ScheduleRun) (rows : List ScheduleRun)
    → length (filter_by p (insert_latest r rows)) ≡ length (filter_by p (r ∷ rows))
unfolding insert_latest filter_by
counted p r [] = refl
counted p r (q ∷ rows) = ground (arith, counted p r rows)

-- Sorting counts the same.
length-latest_first :
    (p : ScheduleRun → Bool) (rows : List ScheduleRun)
    → length (filter_by p (latest_first rows)) ≡ length (filter_by p rows)
unfolding latest_first filter_by
length-latest_first p [] = refl
length-latest_first p (r ∷ rows) =
    ground (arith, counted p r (latest_first rows), length-latest_first p rows)

-- A run is no earlier than itself.
no_earlier-pos : (rows : List ScheduleRun) → All (λ r. 0 < no_earlier r rows) rows
unfolding filter_by at_most
no_earlier-pos [] = tt
no_earlier-pos (x ∷ rows) = (
  ground arith,
  All-imp (λ r. 0 < no_earlier r rows) (λ r. 0 < no_earlier r (x ∷ rows)) (λ r h. ground arith) rows
      (no_earlier-pos rows),
)

-- Kept, or behind more than `n` others.
abbrev Ranked : ℕ → List ScheduleRun → ScheduleRun → Type 0
Ranked n rows r = (contains r.id (ids (take n rows)) ≡ true) ⊎ (n < no_earlier r rows)

take-Ranked : (n : ℕ) (rows : List ScheduleRun) → IsLatestFirst rows → All (Ranked n rows) rows
unfolding contains filter_by
take-Ranked zero rows h =
    All-imp (λ r. 0 < no_earlier r rows) (Ranked 0 rows) (λ r positive. inr positive) rows
      (no_earlier-pos rows)
take-Ranked (suc n) [] h = tt
take-Ranked (suc n) (x ∷ rows) h = (inl (ground arith), behind rows h.0 (take-Ranked n rows h.1))
  where
    step : (r : ScheduleRun) → NoLater r x → Ranked n rows r → Ranked (suc n) (x ∷ rows) r
    step r later (inl c) = inl (ground (arith, c))
    step r later (inr many) = inr (ground (arith, later, many))

    behind :
        (more : List ScheduleRun)
        → All (λ q. NoLater q x) more
        → All (Ranked n rows) more
        → All (Ranked (suc n) (x ∷ rows)) more
    behind [] l k = tt
    behind (r ∷ more) l k = (step r l.0 k.0, behind more l.1 k.1)

-- What a filter lets through is in its result.
contains-filter_by :
    (p : ScheduleRun → Bool) (rows : List ScheduleRun)
    → All (λ r. p r ≡ true → contains r.id (ids (filter_by p rows)) ≡ true) rows
unfolding contains filter_by
contains-filter_by p [] = tt
contains-filter_by p (x ∷ rows) = (
  λ h. ground (arith, h),
  All-imp (λ r. p r ≡ true → contains r.id (ids (filter_by p rows)) ≡ true)
      (λ r. p r ≡ true → contains r.id (ids (filter_by p (x ∷ rows))) ≡ true)
      (λ r k h. ground (arith, k h)) rows (contains-filter_by p rows),
)

-- In the table after a statement, or behind too many others.
abbrev pub StaysOrTrimmed : List ScheduleRun → List ScheduleRun → ScheduleRun → Type 0
StaysOrTrimmed mine after r =
    (contains r.id (ids after) ≡ true) ⊎ (run_history_limit < no_earlier r mine)

-- A run that is recorded leaves the latest runs of its schedule: at most `run_history_limit` of them
-- stay, and each one, the new one included, either stays in the table or has more than
-- `run_history_limit` runs of the schedule, itself among them, that started no earlier; identifiers
-- are distinct and have been given out before.
pub record_run-latest :
    (values : ScheduleRun) (t : Tables)
    → IsConsistent t
    → let mine =
        filter_by (run_of values.schedule_id) (record values { id = t.next_id } ∷ t.runs) in
      let after = (record_run values t).runs in
      (length (filter_by (run_of values.schedule_id) after) ≤ run_history_limit)
      × All (StaysOrTrimmed mine after) mine
unfolding record_run kept_ids
record_run-latest values t consistent = (
  (record_run-history values t consistent).0,
  settled mine
      (latest_first-All (Ranked run_history_limit (latest_first mine)) mine
        (take-Ranked run_history_limit (latest_first mine) (latest_first-IsLatestFirst mine)))
      (All-filter_by (λ r. stays r ≡ true → contains r.id (ids (filter_by stays runs)) ≡ true)
        (run_of values.schedule_id) runs (contains-filter_by stays runs)),
)
  where
    runs : List ScheduleRun
    runs = record values { id = t.next_id } ∷ t.runs

    mine : List ScheduleRun
    mine = filter_by (run_of values.schedule_id) runs

    stays : ScheduleRun → Bool
    stays r =
        not (run_of values.schedule_id r && not (contains r.id (kept_ids values.schedule_id runs)))

    settled :
        (rows : List ScheduleRun)
        → All (Ranked run_history_limit (latest_first mine)) rows
        → All (λ r. stays r ≡ true → contains r.id (ids (filter_by stays runs)) ≡ true) rows
        → All (StaysOrTrimmed mine (record_run values t).runs) rows
    settled [] h k = tt
    settled (r ∷ rows) (inl kept, h) k = (inl (k.0 (ground (arith, kept))), settled rows h k.1)
    settled (r ∷ rows) (inr many, h) k = (
      inr (
          omega (
            arith,
            many,
            length-latest_first (λ (q : ScheduleRun). at_most r.started_at q.started_at) mine,
          )),
      settled rows h k.1,
    )
