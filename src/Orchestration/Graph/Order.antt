-- ===== src/Orchestration/Graph/Order.antt =====
-- The loop of the topological sort: its invariant and its fuel.
use mathlib.Core.List.{append-nil, append_assoc}
use affective_belief_persist.Prelude.{
  count, count-append, count-member, count-sorted_ids, member-count, sorted_ids, subset, ℕ, zero,
  suc, ◌+◌, ◌≤◌, ◌<◌, ◌≡◌, refl, subst, inl, inr, Bool, true, not, ◌&&◌, ◌||◌, some, List, [], ◌∷◌,
  ◌++◌, length, all, eqb, arith, if◌then◌else◌, Text, text_eq, text_eq_iff, text_eq_refl, member,
  Bool-cases, In, &&-eq-true, here, there, length-append,
}
use affective_belief_persist.Orchestration.Contracts.{TaskContract}
use affective_belief_persist.Orchestration.Graph.{
  all_dependencies, ids, dependents, Degrees, release, drain,
}
use affective_belief_persist.Orchestration.Graph.Counting.{
  count-dependents_other, Released, release-Released,
}
use affective_belief_persist.Orchestration.Graph.Multisets.{
  Distinct, Distinct-count, length-Includes, done, done-room, done-subset, done-snoc, task_of_id,
  id_of_task,
}
use affective_belief_persist.Orchestration.Graph.Degrees.{count-dependents}

-- Every dependency of a task with this identifier is in the list.
abbrev pub met : List TaskContract → List Text → Text → Bool
met tasks seen id = all (λ t. not (text_eq t.task_id id) || subset (all_dependencies t) seen) tasks

-- Walking down the order, each identifier comes after the dependencies of its task.
abbrev pub respects : List TaskContract → List Text → List Text → Bool
respects tasks seen [] = true
respects tasks seen (id ∷ rest) = met tasks seen id && respects tasks (seen ++ id ∷ []) rest

respects-snoc :
    (tasks : List TaskContract) (seen xs : List Text) (id : Text)
    → respects tasks seen xs ≡ true
    → met tasks (seen ++ xs) id ≡ true
    → respects tasks seen (xs ++ id ∷ []) ≡ true
respects-snoc tasks seen [] id h k =
    let last : met tasks seen id ≡ true = rw append-nil at k in rw last
respects-snoc tasks seen (x ∷ xs) id h k =
    let (now, later) = &&-eq-true (met tasks seen x) (respects tasks (seen ++ x ∷ []) xs) h in
    let k' : met tasks ((seen ++ x ∷ []) ++ xs) id ≡ true = rw append_assoc k in
    rw (now, respects-snoc tasks (seen ++ x ∷ []) xs id later k')

met_of :
    (ts : List TaskContract) (seen : List Text) (id : Text)
    → ((t : TaskContract) → In t ts → t.task_id ≡ id → subset (all_dependencies t) seen ≡ true)
    → met ts seen id ≡ true
met_of [] seen id h = refl
met_of (t ∷ ts) seen id h =
    let rest = met_of ts seen id (λ u i. h u (there i)) in
    elim (Bool-cases (text_eq t.task_id id)) [
      | inl e ↦ rw (e, h t here ((text_eq_iff t.task_id id).0 e)) rest
      | inr f ↦ rw f rest
    ]

pub length-ids : (ts : List TaskContract) → length (ids ts) ≡ length ts
length-ids [] = refl
length-ids (t ∷ ts) = omega (arith, length-ids ts)

module _ (tasks : List TaskContract) (distinct : Distinct (ids tasks)) where
  abbrev placed : List Text → List Text → Text → ℕ
  placed ordered available j = count j ordered + count j available

  -- The invariant of the `while` loop.
  pub record Inv (ordered : List Text) (deg : Degrees) (available : List Text) : Type 0 where
    pub degrees :
        (t : TaskContract)
        → In t tasks
        → deg t.task_id + done ordered (all_dependencies t) ≡ length (all_dependencies t)
    pub known : (j : Text) → placed ordered available j ≤ count j (ids tasks)
    pub open_tasks :
        (t : TaskContract) → In t tasks → deg t.task_id ≡ 0 → 1 ≤ placed ordered available t.task_id
    pub idle :
        (t : TaskContract) → In t tasks → 1 ≤ placed ordered available t.task_id → deg t.task_id ≡ 0
    pub respected : respects tasks [] ordered ≡ true

  pub length-known :
      (ordered available : List Text) (deg : Degrees)
      → Inv ordered deg available
      → length ordered ≤ length tasks
  length-known ordered available deg inv = omega (
    arith,
    length-Includes ordered (ids tasks) (λ j. omega (arith, inv.known j)),
    length-ids tasks,
  )

  module _ (ordered available : List Text) (deg : Degrees) (id : Text)
      (inv : Inv ordered deg (id ∷ available)) where
    abbrev walked : List Text
    walked = sorted_ids (dependents tasks id)

    fresh : count id ordered ≡ 0
    fresh = ground (arith, inv.known id, Distinct-count (ids tasks) id distinct, text_eq_refl id)

    count-walked :
        (t : TaskContract) → In t tasks → count t.task_id walked ≡ count id (all_dependencies t)
    count-walked t i =
        omega
          (arith, count-sorted_ids t.task_id (dependents tasks id), count-dependents id i distinct)

    covers : (j : Text) → count j walked ≤ deg j
    covers j = elim (Bool-cases (member text_eq j (ids tasks))) [
      | inl m ↦
          let (t, i, e) = task_of_id j tasks m in
          subst (λ k. count k walked ≤ deg k) e
            (omega (
              arith,
              count-walked t i,
              inv.degrees t i,
              done-room id ordered (all_dependencies t) fresh,
            ))
      | inr n ↦
          omega
            (arith, count-sorted_ids j (dependents tasks id), count-dependents_other tasks j id n)
    ]

    released :
        Released deg available walked
          (release deg available walked).0
          (release deg available walked).1
    released = release-Released deg available walked covers

    -- The invariant after one round, part by part.
    abbrev deg' : Degrees
    deg' = (release deg available walked).0

    abbrev available' : List Text
    available' = (release deg available walked).1

    abbrev placed' : Text → ℕ
    placed' = placed (ordered ++ id ∷ []) available'

    placed-step :
        (j : Text)
        → placed' j
          ≡ placed ordered (id ∷ available) j
            + (if eqb (deg' j) 0 && member text_eq j walked then 1 else 0)
    placed-step j = omega (arith, count-append j ordered (id ∷ []), released.added j)

    step_known_task :
        (t : TaskContract) → In t tasks → placed' t.task_id ≤ count t.task_id (ids tasks)
    step_known_task t i = ground (
      arith,
      placed-step t.task_id,
      released.degrees t.task_id,
      inv.known t.task_id,
      inv.idle t i,
      member-count t.task_id walked,
      member-count t.task_id (ids tasks),
      id_of_task i,
    )

    step_known : (j : Text) → placed' j ≤ count j (ids tasks)
    step_known j = elim (Bool-cases (member text_eq j (ids tasks))) [
      | inl m ↦
          let (t, i, e) = task_of_id j tasks m in
          subst (λ k. placed' k ≤ count k (ids tasks)) e (step_known_task t i)
      | inr n ↦ ground (
        arith,
        placed-step j,
        inv.known j,
        member-count j walked,
        count-sorted_ids j (dependents tasks id),
        count-dependents_other tasks j id n,
      )
    ]

    step_open : (t : TaskContract) → In t tasks → deg' t.task_id ≡ 0 → 1 ≤ placed' t.task_id
    step_open t i z = ground (
      arith,
      placed-step t.task_id,
      released.degrees t.task_id,
      inv.open_tasks t i,
      count-member t.task_id walked,
    )

    step_idle : (t : TaskContract) → In t tasks → 1 ≤ placed' t.task_id → deg' t.task_id ≡ 0
    step_idle t i p =
        ground (arith, placed-step t.task_id, released.degrees t.task_id, inv.idle t i)

    step_degrees :
        (t : TaskContract)
        → In t tasks
        → deg' t.task_id + done (ordered ++ id ∷ []) (all_dependencies t)
          ≡ length (all_dependencies t)
    step_degrees t i = omega (
      arith,
      released.degrees t.task_id,
      inv.degrees t i,
      count-walked t i,
      done-snoc id ordered (all_dependencies t) fresh,
    )

    step_met : met tasks ordered id ≡ true
    step_met = met_of tasks ordered id λ t i e.
        done-subset ordered (all_dependencies t)
          (ground (arith, inv.degrees t i, inv.idle t i, text_eq_iff t.task_id id))

    step_Inv : Inv (ordered ++ id ∷ []) deg' available'
    step_Inv = record {
      degrees = step_degrees;
      known = step_known;
      open_tasks = step_open;
      idle = step_idle;
      respected = respects-snoc tasks [] ordered id inv.respected step_met;
    }

  -- With fuel for one round more than there are tasks left, the loop ends, and the invariant holds
  -- with nothing available.
  pub drain-Inv :
      (fuel : ℕ) (ordered : List Text) (deg : Degrees) (available : List Text)
      → length tasks < length ordered + fuel
      → Inv ordered deg available
      → (last : List Text) × (deg' : Degrees) × (drain tasks fuel ordered deg available ≡ some last)
        × Inv last deg' []
  unfolding drain
  drain-Inv zero ordered deg available f inv =
      absurd (omega (arith, length-known ordered available deg inv))
  drain-Inv (suc fuel) ordered deg [] f inv = (ordered, deg, refl, inv)
  drain-Inv (suc fuel) ordered deg (id ∷ available) f inv =
      drain-Inv fuel (ordered ++ id ∷ []) _ _ (omega (arith, length-append ordered (id ∷ [])))
        (step_Inv ordered available deg id inv)
