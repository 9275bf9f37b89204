-- ===== src/Schedules/History.antt =====
-- `record_run` keeps the history of a schedule within its limit, and touches no other history.
use bolodb.Prelude.{
  ℕ, suc, ◌+◌, ◌≤◌, ◌<◌, ◌≡◌, refl, ap, ◌∙◌, Bool, true, false, not, ◌&&◌, ◌||◌, List, [], ◌∷◌, map,
  arith, ◌==◌, ==_iff, inl, inr, Bool-cases, length, take, filter_by, contains, All, length-take,
}
use bolodb.Schedules.{
  ScheduleRun, Tables, run_of, run_history_limit, latest_first, kept_ids, record_run,
}

-- The identifiers of the runs are distinct, and below the next one.
abbrev pub IsFresh : ℕ → List ScheduleRun → Type 0
IsFresh next = All (λ (r : ScheduleRun). r.id < next)

abbrev pub DistinctRuns : List ScheduleRun → Type 0
DistinctRuns [] = Unit
DistinctRuns (r ∷ rows) = All (λ (q : ScheduleRun). (q.id == r.id) ≡ false) rows × DistinctRuns rows

abbrev named : ℕ → ScheduleRun → Bool
named i r = r.id == i

none_named :
    (i : ℕ) (rows : List ScheduleRun)
    → All (λ (q : ScheduleRun). (q.id == i) ≡ false) rows
    → length (filter_by (named i) rows) ≡ 0
unfolding filter_by
none_named i [] h = refl
none_named i (r ∷ rows) h = ground (arith, none_named i rows h.1, h.0)

one_named :
    (i : ℕ) (rows : List ScheduleRun) → DistinctRuns rows → length (filter_by (named i) rows) ≤ 1
unfolding filter_by
one_named i [] d = omega arith
one_named i (r ∷ rows) d = elim (Bool-cases (r.id == i)) [
  | inl here ↦
      let same : r.id ≡ i = (==_iff r.id i).0 here in
      ground (arith, none_named i rows (rw same at d.0))
  | inr other ↦ ground (arith, one_named i rows d.1)
]

filter_or :
    (p q : ScheduleRun → Bool) (rows : List ScheduleRun)
    → length (filter_by (λ r. p r || q r) rows)
      ≤ length (filter_by p rows) + length (filter_by q rows)
unfolding filter_by
filter_or p q [] = omega arith
filter_or p q (r ∷ rows) = ground (arith, filter_or p q rows)

filter_false : (rows : List ScheduleRun) → length (filter_by (λ r. false) rows) ≡ 0
unfolding filter_by
filter_false [] = refl
filter_false (r ∷ rows) = filter_false rows

-- Distinct rows that are named in a list are no more than the list is long.
filter_contains :
    (ids : List ℕ) (rows : List ScheduleRun)
    → DistinctRuns rows
    → length (filter_by (λ (r : ScheduleRun). contains r.id ids) rows) ≤ length ids
unfolding contains
filter_contains [] rows d = omega (arith, filter_false rows)
filter_contains (i ∷ ids) rows d = omega (
  arith,
  filter_or (named i) (λ (r : ScheduleRun). contains r.id ids) rows,
  one_named i rows d,
  filter_contains ids rows d,
)

-- What passes a stronger test is no more.
filter_mono :
    (p q : ScheduleRun → Bool) (rows : List ScheduleRun)
    → ((r : ScheduleRun) → p r ≡ true → q r ≡ true)
    → length (filter_by p rows) ≤ length (filter_by q rows)
unfolding filter_by
filter_mono p q [] h = omega arith
filter_mono p q (r ∷ rows) h = ground (arith, filter_mono p q rows h, h r)

filter_filter :
    (p q : ScheduleRun → Bool) (rows : List ScheduleRun)
    → filter_by p (filter_by q rows) ≡ filter_by (λ r. q r && p r) rows
unfolding filter_by
filter_filter p q [] = refl
filter_filter p q (r ∷ rows) = ground (arith, filter_filter p q rows)

filter_ext :
    (p q : ScheduleRun → Bool) (rows : List ScheduleRun)
    → ((r : ScheduleRun) → p r ≡ q r)
    → filter_by p rows ≡ filter_by q rows
unfolding filter_by
filter_ext p q [] h = refl
filter_ext p q (r ∷ rows) h = ground (arith, filter_ext p q rows h, h r)

length-ids : (rows : List ScheduleRun) → length (map (λ (r : ScheduleRun). r.id) rows) ≡ length rows
length-ids [] = refl
length-ids (r ∷ rows) = ap suc (length-ids rows)

length-kept_ids : (i : ℕ) (rows : List ScheduleRun) → length (kept_ids i rows) ≤ run_history_limit
unfolding kept_ids
length-kept_ids i rows =
    let sorted_rows = latest_first (filter_by (run_of i) rows) in
    omega (
      arith,
      length-ids (take run_history_limit sorted_rows),
      length-take run_history_limit sorted_rows,
    )

module _ (P : ScheduleRun → Type 0) where
  All-filter_by :
      (p : ScheduleRun → Bool) (rows : List ScheduleRun) → All P rows → All P (filter_by p rows)
  unfolding filter_by
  All-filter_by p [] h = tt
  All-filter_by p (r ∷ rows) h = elim (Bool-cases (p r)) [
    | inl kept ↦ rw kept (h.0, All-filter_by p rows h.1)
    | inr dropped ↦ rw dropped (All-filter_by p rows h.1)
  ]

DistinctRuns-filter_by :
    (p : ScheduleRun → Bool) (rows : List ScheduleRun)
    → DistinctRuns rows
    → DistinctRuns (filter_by p rows)
unfolding filter_by
DistinctRuns-filter_by p [] d = tt
DistinctRuns-filter_by p (r ∷ rows) d = elim (Bool-cases (p r)) [
  | inl kept ↦ rw kept (All-filter_by _ p rows d.0, DistinctRuns-filter_by p rows d.1)
  | inr dropped ↦ rw dropped (DistinctRuns-filter_by p rows d.1)
]

fresh_distinct :
    (next : ℕ) (rows : List ScheduleRun)
    → IsFresh next rows
    → All (λ (q : ScheduleRun). (q.id == next) ≡ false) rows
fresh_distinct next [] h = tt
fresh_distinct next (r ∷ rows) h = (ground arith, fresh_distinct next rows h.1)

IsFresh-suc : (next : ℕ) (rows : List ScheduleRun) → IsFresh next rows → IsFresh (suc next) rows
IsFresh-suc next [] h = tt
IsFresh-suc next (r ∷ rows) h = (omega arith, IsFresh-suc next rows h.1)

skip_other :
    (i : ℕ) (r : ScheduleRun) (rows : List ScheduleRun)
    → (i == r.schedule_id) ≡ false
    → filter_by (run_of i) (r ∷ rows) ≡ filter_by (run_of i) rows
unfolding filter_by
skip_other i r rows h = ground arith

-- What holds of the runs between transactions.
pub record IsConsistent (t : Tables) : Type 0 where
  pub distinct : DistinctRuns t.runs
  pub fresh : IsFresh t.next_id t.runs

-- A recorded run leaves at most `run_history_limit` runs of its schedule and exactly the runs that
-- were there of every other one, changes no schedule, and keeps the identifiers distinct and fresh,
-- where they are so before.
pub record_run-history :
    (values : ScheduleRun) (t : Tables)
    → IsConsistent t
    → (length (filter_by (run_of values.schedule_id) (record_run values t).runs)
        ≤ run_history_limit)
      × ((i : ℕ)
          → (i == values.schedule_id) ≡ false
          → filter_by (run_of i) (record_run values t).runs ≡ filter_by (run_of i) t.runs)
      × ((record_run values t).schedules ≡ t.schedules)
      × IsConsistent (record_run values t)
unfolding record_run
record_run-history values t ok_before =
    let run = record values { id = t.next_id } in
    let runs = run ∷ t.runs in
    let keep = kept_ids values.schedule_id runs in
    let distinct : DistinctRuns runs =
      (fresh_distinct t.next_id t.runs ok_before.fresh, ok_before.distinct) in
    let fresh : IsFresh (suc t.next_id) runs =
      (omega arith, IsFresh-suc t.next_id t.runs ok_before.fresh) in
    let stays : ScheduleRun → Bool =
      λ r. not (run_of values.schedule_id r && not (contains r.id keep)) in
    (
      omega (
        arith,
        ap length (filter_filter (run_of values.schedule_id) stays runs),
        filter_mono (λ r. stays r && run_of values.schedule_id r)
            (λ (r : ScheduleRun). contains r.id keep) runs (λ r h. ground arith),
        filter_contains keep runs distinct,
        length-kept_ids values.schedule_id runs,
      ),
      λ i other.
          filter_filter (run_of i) stays runs
          ∙ filter_ext (λ r. stays r && run_of i r) (run_of i) runs (λ r. ground arith)
          ∙ skip_other i run t.runs other,
      refl,
      record {
        distinct = DistinctRuns-filter_by stays runs distinct;
        fresh = All-filter_by (λ (r : ScheduleRun). r.id < suc t.next_id) stays runs fresh;
      },
    )
