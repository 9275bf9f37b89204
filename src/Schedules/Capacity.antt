-- ===== src/Schedules/Capacity.antt =====
-- No workspace ever has more than `max_schedules_per_workspace` schedules.
use bolodb.Prelude.{
  ℕ, ◌+◌, ◌≤◌, ◌≡◌, refl, ap, Bool, true, false, List, [], ◌∷◌, ◌++◌, Option, none, some, arith,
  ◌==◌, ==_iff, ◌∙◌, leb, if◌then◌else◌, inl, inr, Bool-cases, length, filter_by, Result, ok, err,
  length-append,
}
use bolodb.Prelude.Rows.{update_rows}
use bolodb.Schedules.{
  Schedule, Status, Tables, in_workspace, max_schedules_per_workspace, count_schedules,
  create_schedule, delete_schedule, ScheduleLimitError, claimed, finished,
}
use bolodb.Schedules.Processes.{Op, perform, claim, finish, record_one}
use bolodb.Schedules.{claim_schedule, finish_schedule_run, record_run}

-- What users and the scheduler do to the table of schedules.
pub data Change : Type 0 where
  create : ℕ → Schedule → Change
  delete : ℕ → ℕ → Change
  schedule_op : Op → Change

-- A create that is refused rolls back.
abbrev pub or_unchanged : Tables → Result ScheduleLimitError Tables → Tables
or_unchanged t (ok t') = t'
or_unchanged t (err e) = t

unfoldable pub change : Change → Tables → Tables
change (create workspace_id values) t = or_unchanged t (create_schedule workspace_id values t)
change (delete workspace_id schedule_id) t = (delete_schedule workspace_id schedule_id t).0
change (schedule_op op) t = (perform op t).0

unfoldable pub changes : List Change → Tables → Tables
changes [] t = t
changes (c ∷ cs) t = changes cs (change c t)

filter_append :
    (p : Schedule → Bool) (xs ys : List Schedule)
    → filter_by p (xs ++ ys) ≡ filter_by p xs ++ filter_by p ys
unfolding filter_by
filter_append p [] ys = refl
filter_append p (x ∷ xs) ys = ground (arith, filter_append p xs ys)

filter_less :
    (p q : Schedule → Bool) (rows : List Schedule)
    → length (filter_by p (filter_by q rows)) ≤ length (filter_by p rows)
unfolding filter_by
filter_less p q [] = omega arith
filter_less p q (r ∷ rows) = ground (arith, filter_less p q rows)

update_count :
    (w : ℕ) (p : Schedule → Bool) (values : Schedule → Schedule) (rows : List Schedule)
    → ((s : Schedule) → (values s).workspace_id ≡ s.workspace_id)
    → length (filter_by (in_workspace w) (update_rows p values rows))
      ≡ length (filter_by (in_workspace w) rows)
unfolding filter_by update_rows
update_count w p values [] same = refl
update_count w p values (s ∷ rows) same = ground (arith, update_count w p values rows same, same s)

finished_workspace :
    (status : Status) (n : ℕ) (active : Option Bool) (s : Schedule)
    → (finished status n active s).workspace_id ≡ s.workspace_id
finished_workspace status n none s = refl
finished_workspace status n (some true) s = refl
finished_workspace status n (some false) s = refl

-- No more schedules than the ceiling.
abbrev pub IsWithinCap : ℕ → Tables → Type 0
IsWithinCap w t = count_schedules w t ≤ max_schedules_per_workspace

count-append :
    (w : ℕ) (rows : List Schedule) (s : Schedule)
    → length (filter_by (in_workspace w) (rows ++ s ∷ []))
      ≡ length (filter_by (in_workspace w) rows) + (if in_workspace w s then 1 else 0)
unfolding filter_by
count-append w rows s =
    ap length (filter_append (in_workspace w) rows (s ∷ []))
    ∙ length-append (filter_by (in_workspace w) rows) (filter_by (in_workspace w) (s ∷ []))
    ∙ ground arith

create-IsWithinCap :
    (w workspace_id : ℕ) (values : Schedule) (t : Tables)
    → IsWithinCap w t
    → IsWithinCap w (or_unchanged t (create_schedule workspace_id values t))
unfolding create_schedule
create-IsWithinCap w workspace_id values t h =
    elim (Bool-cases (leb max_schedules_per_workspace (count_schedules workspace_id t))) [
      | inl full ↦ rw full h
      | inr room ↦ rw room (elim (Bool-cases (workspace_id == w)) [
        | inl same ↦ ground (
          arith,
          room,
          (==_iff workspace_id w).0 same,
          count-append w t.schedules
              (record values { id = t.next_id; workspace_id = workspace_id }),
        )
        | inr other ↦ ground (
          arith,
          other,
          h,
          count-append w t.schedules
              (record values { id = t.next_id; workspace_id = workspace_id }),
        )
      ])
    ]

change-IsWithinCap :
    (w : ℕ) (c : Change) (t : Tables) → IsWithinCap w t → IsWithinCap w (change c t)
unfolding change count_schedules perform claim_schedule finish_schedule_run record_run
    delete_schedule
change-IsWithinCap w (create workspace_id values) t h = create-IsWithinCap w workspace_id values t h
change-IsWithinCap w (delete workspace_id schedule_id) t h =
    omega (arith, filter_less (in_workspace w) _ t.schedules)
change-IsWithinCap w (schedule_op (claim i slot upcoming moment)) t h =
    omega (arith, update_count w _ (claimed upcoming moment) t.schedules (λ s. refl))
change-IsWithinCap w (schedule_op (finish i status n active)) t h = omega (
  arith,
  update_count w _ (finished status n active) t.schedules (finished_workspace status n active),
)
change-IsWithinCap w (schedule_op (record_one r)) t h = h

-- From no more schedules than the ceiling, whatever is created, deleted, claimed, finished and
-- recorded in whatever order, no workspace exceeds the ceiling.
pub changes-IsWithinCap :
    (w : ℕ) (cs : List Change) (t : Tables)
    → count_schedules w t ≤ max_schedules_per_workspace
    → count_schedules w (changes cs t) ≤ max_schedules_per_workspace
unfolding changes
changes-IsWithinCap w [] t h = h
changes-IsWithinCap w (c ∷ cs) t h =
    changes-IsWithinCap w cs (change c t) (change-IsWithinCap w c t h)
