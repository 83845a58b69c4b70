-- ===== src/Orchestration/Supervisor/Dependencies.antt =====
-- The lookups of `_propagate_dependency_failures`: contracts, and the dependencies that failed.
use affective_belief_persist.Prelude.{
  subset, subset-Within, ◌≡◌, refl, sym, subst, ◌⊎◌, inl, inr, Bool, true, false, not, ◌||◌,
  Bool-cases, some, List, [], ◌∷◌, ◌++◌, if◌then◌else◌, ok, Text, text_eq, text_eq_iff,
  text_eq_refl, member, arith, &&-eq-true,
}
use affective_belief_persist.Orchestration.Task.{WorkflowTask}
use affective_belief_persist.Orchestration.Contracts.{TaskContract}
use affective_belief_persist.Orchestration.Graph.{all_dependencies, ids}
use affective_belief_persist.Orchestration.Graph.Order.{met}
use affective_belief_persist.Orchestration.Workflow.{find_task, WorkflowState}
use affective_belief_persist.Orchestration.Supervisor.Propagation.{
  has_failed, failed_dependencies, find_contract,
}

pub member-snoc :
    (x y : Text) (xs : List Text)
    → member text_eq x (xs ++ y ∷ []) ≡ (member text_eq x xs || text_eq x y)
member-snoc x y [] = ground arith
member-snoc x y (z ∷ zs) = ground (arith, member-snoc x y zs)

pub or_false : (b : Bool) → (b || false) ≡ b
or_false b = ground arith

pub member-left :
    (x : Text) (xs ys : List Text) → member text_eq x xs ≡ true → member text_eq x (xs ++ ys) ≡ true
member-left x [] ys h = ground arith
member-left x (z ∷ zs) ys h = ground (arith, member-left x zs ys)

pub text_eq-flip : (s t : Text) → text_eq s t ≡ false → text_eq t s ≡ false
text_eq-flip s t h = elim (Bool-cases (text_eq t s)) [
  | inl eq ↦ absurd (cc (h, (text_eq_iff s t).1 (sym ((text_eq_iff t s).0 eq))))
  | inr ne ↦ ne
]

pub find_contract-ids :
    (ts : List TaskContract) (id : Text)
    → member text_eq id (ids ts) ≡ true
    → (c : TaskContract) × (find_contract ts id ≡ ok c)
unfolding find_contract
find_contract-ids [] id h = absurd (cc h)
find_contract-ids (t ∷ ts) id h = elim (Bool-cases (text_eq t.task_id id)) [
  | inl eq ↦ (t, rw eq refl)
  | inr ne ↦
      let back : text_eq id t.task_id ≡ false = text_eq-flip t.task_id id ne in
      let (c, p) = find_contract-ids ts id (ground arith) in (c, rw ne p)
]

-- The dependencies of a task that is met stand in the list.
pub find_contract-all :
    (ts : List TaskContract) (seen : List Text) (id : Text) (c : TaskContract) (d : Text)
    → find_contract ts id ≡ ok c
    → met ts seen id ≡ true
    → member text_eq d (all_dependencies c) ≡ true
    → member text_eq d seen ≡ true
unfolding find_contract
find_contract-all [] seen id c d p m h = absurd (cc p)
find_contract-all (t ∷ ts) seen id c d p m h =
    let (now, later) =
      &&-eq-true (not (text_eq t.task_id id) || subset (all_dependencies t) seen) _ m in
    elim (Bool-cases (text_eq t.task_id id)) [
      | inl eq ↦
          let within : subset (all_dependencies t) seen ≡ true = ground arith in
          let same : t ≡ c = ground arith in
          subset-Within (all_dependencies t) seen within d (rw same h)
      | inr ne ↦ find_contract-all ts seen id c d (ground arith) later h
    ]

pub find_contract-met :
    (ts : List TaskContract) (seen : List Text) (id : Text) (c : TaskContract) (d : Text)
    → find_contract ts id ≡ ok c
    → met ts seen id ≡ true
    → member text_eq d c.dependencies ≡ true
    → member text_eq d seen ≡ true
find_contract-met ts seen id c d p m h =
    find_contract-all ts seen id c d p m (member-left d c.dependencies c.optional_dependencies h)

-- What the list of failed dependencies says.
pub record IsFailedList (s : WorkflowState) (ds failed : List Text) : Type 0 where
  pub none_failed :
      failed ≡ []
      → (d : Text) (y : WorkflowTask) → member text_eq d ds ≡ true
      → find_task d s.tasks ≡ some y
      → has_failed y.status ≡ false
  pub some_failed :
      (failed ≡ [])
      ⊎ ((d : Text) × (y : WorkflowTask) × (member text_eq d ds ≡ true)
          × (find_task d s.tasks ≡ some y)
          × (has_failed y.status ≡ true))

failed-step :
    (s : WorkflowState) (d : Text) (ds rest : List Text) (t : WorkflowTask)
    → find_task d s.tasks ≡ some t
    → IsFailedList s ds rest
    → IsFailedList s (d ∷ ds) (if has_failed t.status then d ∷ rest else rest)
failed-step s d ds rest t f r = elim (Bool-cases (has_failed t.status)) [
  | inl bad ↦
      subst (λ b. IsFailedList s (d ∷ ds) (if b then d ∷ rest else rest)) (sym bad)
        (record {
          none_failed = λ e. absurd (cc e);
          some_failed = inr (d, t, ground (arith, text_eq_refl d), f, bad);
        })
  | inr good ↦
      subst (λ b. IsFailedList s (d ∷ ds) (if b then d ∷ rest else rest)) (sym good)
        (record {
          none_failed = λ e x y h g. elim (Bool-cases (text_eq x d)) [
            | inl eq ↦
                let same : x ≡ d = (text_eq_iff x d).0 eq in
                let both : find_task x s.tasks ≡ some t = rw same f in
                let is : t ≡ y = cc (g, both) in subst (λ u. has_failed u.status ≡ false) is good
            | inr ne ↦ r.none_failed e x y (ground arith) g
          ];
          some_failed = elim r.some_failed [
            | inl e ↦ inl e
            | inr (x, y, h, g, k) ↦ inr (x, y, ground arith, g, k)
          ];
        })
]

failed_dependencies-step :
    (s : WorkflowState) (d : Text) (ds rest : List Text) (t : WorkflowTask)
    → find_task d s.tasks ≡ some t
    → failed_dependencies s ds ≡ ok rest
    → failed_dependencies s (d ∷ ds) ≡ ok (if has_failed t.status then d ∷ rest else rest)
unfolding failed_dependencies
failed_dependencies-step s d ds rest t f p = ground arith

pub failed_dependencies_lem :
    (s : WorkflowState) (ds : List Text)
    → ((d : Text)
        → member text_eq d ds ≡ true
        → (y : WorkflowTask) × (find_task d s.tasks ≡ some y))
    → (failed : List Text) × (failed_dependencies s ds ≡ ok failed) × IsFailedList s ds failed
unfolding failed_dependencies
failed_dependencies_lem s [] known =
    ([], refl, record { none_failed = λ e d y h. absurd (cc h); some_failed = inl refl })
failed_dependencies_lem s (d ∷ ds) known =
    let (t, f) = known d (ground (arith, text_eq_refl d)) in
    let (rest, p, r) = failed_dependencies_lem s ds (λ x h. known x (ground arith)) in
    (
      (if has_failed t.status then d ∷ rest else rest),
      failed_dependencies-step s d ds rest t f p,
      failed-step s d ds rest t f r,
    )
