-- ===== src/Schedules/Claims.antt =====
-- The compare-and-swap of `claim_schedule` hands each slot of a schedule out once.
use bolodb.Prelude.{
  ℕ, ◌≤◌, ◌≡◌, refl, Bool, true, false, ◌&&◌, List, [], ◌∷◌, Option, none, some, arith, ◌==◌,
  ==_iff, All, if◌then◌else◌, inl, inr, Bool-cases, subst,
}
use bolodb.Prelude.Rows.{update_rows, any_row}
use bolodb.Datetime.{Datetime, before}
use bolodb.Schedules.{
  Status, Schedule, Tables, same_moment, same_slot, claimed, has_id, claimable, claim_schedule,
  finished, finish_schedule_run, record_run,
}
use bolodb.Schedules.Processes.{
  past, Distinct, Op, perform, Advances, claims_slot, wins, claim, finish, record_one,
}

and_true : (a b : Bool) → (a && b) ≡ true → (a ≡ true) × (b ≡ true)
and_true a b h = (ground arith, ground arith)

past_trans :
    (slot expected : Datetime) (next upcoming : Option Datetime)
    → same_slot next (some expected) ≡ true
    → past slot next ≡ true
    → past expected upcoming ≡ true
    → past slot upcoming ≡ true
unfolding before
past_trans slot expected none upcoming e p q = cc e
past_trans slot expected (some n) none e p q = refl
past_trans slot expected (some n) (some u) e p q = ground arith

not_past :
    (slot : Datetime) (next : Option Datetime)
    → same_slot next (some slot) ≡ true
    → past slot next ≡ false
unfolding before
not_past slot none e = cc e
not_past slot (some n) e = ground arith

module _ (id : ℕ) (slot : Datetime) where
  abbrev pub IsPast : Schedule → Type 0
  IsPast s = has_id id s ≡ true → past slot s.next_run_at ≡ true

  All-update_rows :
      (p : Schedule → Bool) (values : Schedule → Schedule) (rows : List Schedule)
      → ((s : Schedule) → IsPast s → IsPast (if p s then values s else s))
      → All IsPast rows
      → All IsPast (update_rows p values rows)
  unfolding update_rows
  All-update_rows p values [] keep h = tt
  All-update_rows p values (s ∷ rows) keep h = (keep s h.0, All-update_rows p values rows keep h.1)

  -- What is past stays past, whoever claims or finishes.
  claim_keeps :
      (i : ℕ) (expected : Datetime) (upcoming : Option Datetime) (moment : Datetime) (s : Schedule)
      → past expected upcoming ≡ true
      → IsPast s
      → IsPast (if claimable i (some expected) s then claimed upcoming moment s else s)
  claim_keeps i expected upcoming moment s adv h =
      elim (Bool-cases (claimable i (some expected) s)) [
        | inl yes_claim ↦
            rw yes_claim
              (λ same. past_trans slot expected s.next_run_at upcoming (ground arith) (h same) adv)
        | inr no_claim ↦ rw no_claim h
      ]

  finish_keeps :
      (i : ℕ) (status : Status) (failures : ℕ) (is_active : Option Bool) (s : Schedule)
      → IsPast s
      → IsPast (if has_id i s then finished status failures is_active s else s)
  finish_keeps i status failures is_active s h = elim (Bool-cases (has_id i s)) [
    | inl yes_id ↦ rw yes_id (of_finished is_active)
    | inr no_id ↦ rw no_id h
  ]
    where
      of_finished : (active : Option Bool) → IsPast (finished status failures active s)
      of_finished none = h
      of_finished (some true) = h
      of_finished (some false) = λ same. refl

  pub perform_keeps :
      (op : Op) (t : Tables)
      → Advances op
      → All IsPast t.schedules
      → All IsPast (perform op t).0.schedules
  unfolding perform claim_schedule finish_schedule_run record_run
  perform_keeps (claim i expected upcoming moment) t adv h =
      All-update_rows (claimable i (some expected)) _ t.schedules
        (λ s k. claim_keeps i expected upcoming moment s adv k) h
  perform_keeps (finish i status failures is_active) t adv h =
      All-update_rows (has_id i) (finished status failures is_active) t.schedules
        (λ s k. finish_keeps i status failures is_active s k) h
  perform_keeps (record_one r) t adv h = h

  -- A slot that is past is not won again.
  not_claimable :
      (rows : List Schedule) → All IsPast rows → any_row (claimable id (some slot)) rows ≡ false
  unfolding any_row
  not_claimable [] h = refl
  not_claimable (s ∷ rows) h =
      ground (arith, not_claimable rows h.1, not_past slot s.next_run_at, h.0)

  same_claim :
      (i : ℕ) (expected : Datetime)
      → (i == id && same_moment expected slot) ≡ true
      → (i ≡ id) × (expected ≡ slot)
  same_claim i expected e = (ground arith, ground arith)

  perform_loses :
      (op : Op) (t : Tables)
      → All IsPast t.schedules
      → ((perform op t).1 && claims_slot id slot op) ≡ false
  unfolding perform claim_schedule
  perform_loses (claim i expected upcoming moment) t h =
      elim (Bool-cases (i == id && same_moment expected slot)) [
        | inl same ↦
            let (same_id, same_slot') = same_claim i expected same in
            rw (same_id, same_slot') (rw (not_claimable t.schedules h))
        | inr other ↦ ground (arith, other)
      ]
  perform_loses (finish i status failures is_active) t h = ground arith
  perform_loses (record_one r) t h = refl

  pub wins_past :
      (ops : List Op) (t : Tables)
      → All Advances ops
      → All IsPast t.schedules
      → wins id slot ops t ≡ 0
  unfolding wins
  wins_past [] t adv h = refl
  wins_past (op ∷ ops) t adv h = ground (
    arith,
    perform_loses op t h,
    wins_past ops (perform op t).0 adv.1 (perform_keeps op t adv.0 h),
  )

  absent_IsPast : (rows : List Schedule) → All (λ r. has_id id r ≡ false) rows → All IsPast rows
  absent_IsPast [] h = tt
  absent_IsPast (s ∷ rows) h = (λ same. absurd (cc (h.0, same)), absent_IsPast rows h.1)

  absent_not_claimable :
      (rows : List Schedule)
      → All (λ r. has_id id r ≡ false) rows
      → any_row (claimable id (some slot)) rows ≡ false
  unfolding any_row
  absent_not_claimable [] h = refl
  absent_not_claimable (s ∷ rows) h = ground (arith, absent_not_claimable rows h.1, h.0)

  absent_update :
      (values : Schedule → Schedule) (rows : List Schedule)
      → All (λ r. has_id id r ≡ false) rows
      → update_rows (claimable id (some slot)) values rows ≡ rows
  unfolding update_rows
  absent_update values [] h = refl
  absent_update values (s ∷ rows) h = ground (arith, absent_update values rows h.1, h.0)

  -- A claim that is won leaves the slot behind.
  won_IsPast :
      (upcoming : Option Datetime) (moment : Datetime) (rows : List Schedule)
      → past slot upcoming ≡ true
      → Distinct rows
      → any_row (claimable id (some slot)) rows ≡ true
      → All IsPast (update_rows (claimable id (some slot)) (claimed upcoming moment) rows)
  unfolding any_row update_rows
  won_IsPast upcoming moment [] adv d w = absurd (cc w)
  won_IsPast upcoming moment (s ∷ rows) adv d w = elim (Bool-cases (has_id id s)) [
    | inl here ↦
        let absent : All (λ r. has_id id r ≡ false) rows =
          subst (λ (i : ℕ). All (λ r. has_id i r ≡ false) rows) ((==_iff s.id id).0 here) d.0 in
        let hit : claimable id (some slot) s ≡ true =
          ground (arith, absent_not_claimable rows absent) in
        (
          rw hit (λ same. adv),
          rw (absent_update (claimed upcoming moment) rows absent) (absent_IsPast rows absent),
        )
    | inr elsewhere ↦
        let unclaimed : claimable id (some slot) s ≡ false = ground arith in
        (
          rw unclaimed (λ same. absurd (cc (elsewhere, same))),
          won_IsPast upcoming moment rows adv d.1 (ground (arith, unclaimed)),
        )
  ]

  pub perform_wins :
      (op : Op) (t : Tables)
      → Advances op
      → Distinct t.schedules
      → ((perform op t).1 && claims_slot id slot op) ≡ true
      → All IsPast (perform op t).0.schedules
  unfolding perform claim_schedule
  perform_wins (claim i expected upcoming moment) t adv d w =
      let (won, same) =
        and_true (any_row (claimable i (some expected)) t.schedules)
          (i == id && same_moment expected slot) w in
      let (same_id, same_slot') = same_claim i expected same in
      rw (same_id, same_slot')
        (won_IsPast upcoming moment t.schedules (rw same_slot' at adv) d
          (rw (same_id, same_slot') at won))
  perform_wins (finish i status failures is_active) t adv d w = absurd (ground arith)
  perform_wins (record_one r) t adv d w = absurd (cc w)

update_rows-absent :
    (i : ℕ) (p : Schedule → Bool) (values : Schedule → Schedule) (rows : List Schedule)
    → ((s : Schedule) → (values s).id ≡ s.id)
    → All (λ r. has_id i r ≡ false) rows
    → All (λ r. has_id i r ≡ false) (update_rows p values rows)
unfolding update_rows
update_rows-absent i p values [] same h = tt
update_rows-absent i p values (s ∷ rows) same h =
    (ground (arith, same s, h.0), update_rows-absent i p values rows same h.1)

update_rows-Distinct :
    (p : Schedule → Bool) (values : Schedule → Schedule) (rows : List Schedule)
    → ((s : Schedule) → (values s).id ≡ s.id)
    → Distinct rows
    → Distinct (update_rows p values rows)
unfolding update_rows
update_rows-Distinct p values [] same d = tt
update_rows-Distinct p values (s ∷ rows) same d =
    let kept : (if p s then values s else s).id ≡ s.id = ground (arith, same s) in
    (
      rw kept (update_rows-absent s.id p values rows same d.0),
      update_rows-Distinct p values rows same d.1,
    )

id-finished :
    (status : Status) (failures : ℕ) (active : Option Bool) (s : Schedule)
    → (finished status failures active s).id ≡ s.id
id-finished status failures none s = refl
id-finished status failures (some true) s = refl
id-finished status failures (some false) s = refl

pub perform-Distinct :
    (op : Op) (t : Tables) → Distinct t.schedules → Distinct (perform op t).0.schedules
unfolding perform claim_schedule finish_schedule_run record_run
perform-Distinct (claim i expected upcoming moment) t d =
    update_rows-Distinct _ _ t.schedules (λ s. refl) d
perform-Distinct (finish i status failures is_active) t d =
    update_rows-Distinct _ _ t.schedules (id-finished status failures is_active) d
perform-Distinct (record_one r) t d = d

-- Whatever any number of scheduler processes do in whatever order, each slot of a schedule is claimed
-- successfully at most once, provided that every claim moves the slot on and identifiers are distinct.
pub wins-le-one :
    (id : ℕ) (slot : Datetime) (ops : List Op) (t : Tables)
    → Distinct t.schedules
    → All Advances ops
    → wins id slot ops t ≤ 1
unfolding wins
wins-le-one id slot [] t d adv = omega arith
wins-le-one id slot (op ∷ ops) t d adv =
    elim (Bool-cases ((perform op t).1 && claims_slot id slot op)) [
      | inl won ↦ ground (
        arith,
        wins_past id slot ops (perform op t).0 adv.1 (perform_wins id slot op t adv.0 d won),
      )
      | inr lost ↦
          ground (arith, wins-le-one id slot ops (perform op t).0 (perform-Distinct op t d) adv.1)
    ]
