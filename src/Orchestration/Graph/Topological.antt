-- ===== src/Orchestration/Graph/Topological.antt =====
-- What `DependencyGraph.__init__` returns, and when it raises.
use affective_belief_persist.Prelude.{
  count, count-member, count-sorted_ids, member-count, subset, ℕ, zero, suc, ◌+◌, ◌<◌, ◌≡◌, ◌≢◌,
  refl, sym, subst, inl, inr, Bool, true, some, List, [], ◌∷◌, length, all, keep, eqb, arith,
  if◌then◌else◌, Result, ok, err, Text, text_eq, text_eq_iff, text_eq_refl, member, Bool-cases, In,
  here, there, count_distinct, &&-eq-true, All, All-In,
}
use affective_belief_persist.Orchestration.Contracts.{TaskContract}
use affective_belief_persist.Orchestration.Graph.{
  GraphError, out_of_fuel, dependency_cycle, duplicate_task_ids, missing_dependencies,
  all_dependencies, ids, indegree, sources, drain, topological_order, dependency_graph,
}
use affective_belief_persist.Orchestration.Graph.Multisets.{
  Distinct, Distinct-count, count_distinct-Distinct, Includes, SameItems, length-Includes,
  Includes-SameItems, done, subset-done, task_of_id, id_of_task,
}
use affective_belief_persist.Orchestration.Graph.Degrees.{indegree_lem}
use affective_belief_persist.Orchestration.Graph.Order.{
  met, Inv, respects, drain-Inv, length-ids, length-known,
}

count-keep :
    (p : Text → Bool) (j : Text) (xs : List Text)
    → count j (keep p xs) ≡ (if p j then count j xs else 0)
count-keep p j [] = ground arith
count-keep p j (x ∷ xs) = ground (arith, text_eq_iff j x, count-keep p j xs)

done-nil : (ds : List Text) → done [] ds ≡ 0
done-nil [] = refl
done-nil (d ∷ ds) = omega (arith, done-nil ds)

module _ (tasks : List TaskContract) (distinct : Distinct (ids tasks)) where
  count-sources :
      (j : Text)
      → count j (sources tasks) ≡ (if eqb (indegree tasks j) 0 then count j (ids tasks) else 0)
  count-sources j =
      let no_dependency : Text → Bool = λ id. eqb (indegree tasks id) 0 in
      omega (
        arith,
        count-sorted_ids j (keep no_dependency (ids tasks)),
        count-keep no_dependency j (ids tasks),
      )

  start_Inv : Inv tasks distinct [] (indegree tasks) (sources tasks)
  start_Inv = record {
    degrees = λ t i. omega (arith, done-nil (all_dependencies t), indegree_lem i distinct);
    known = λ j. ground (arith, count-sources j);
    open_tasks = λ t i z.
        ground (arith, count-sources t.task_id, member-count t.task_id (ids tasks), id_of_task i);
    idle = λ t i p. ground (arith, count-sources t.task_id);
    respected = refl;
  }

  -- The loop's result, and what is known of it.
  finished :
      (last : List Text) × (deg : Text → ℕ) × (drain tasks
          (length tasks + 1)
          []
          (indegree tasks)
          (sources tasks)
        ≡ some last)
      × Inv tasks distinct last deg []
  finished =
      drain-Inv tasks distinct (length tasks + 1) [] (indegree tasks) (sources tasks) (omega arith)
        start_Inv

  -- A task whose dependencies are placed is placed.
  placed_of_dependencies :
      (last : List Text) (deg : Text → ℕ) (t : TaskContract)
      → Inv tasks distinct last deg []
      → In t tasks
      → subset (all_dependencies t) last ≡ true
      → member text_eq t.task_id last ≡ true
  placed_of_dependencies last deg t inv i h = ground (
    arith,
    inv.degrees t i,
    subset-done last (all_dependencies t) h,
    inv.open_tasks t i,
    count-member t.task_id last,
  )

-- `rank` puts each dependency below its task, so that the graph has no cycle.
abbrev pub IsRanked : (Text → ℕ) → List TaskContract → Type 0
IsRanked rank tasks = All (λ t. All (λ d. rank d < rank t.task_id) (all_dependencies t)) tasks

All-member :
    (P : Text → Type 0) (x : Text) (xs : List Text) → All P xs → member text_eq x xs ≡ true → P x
All-member P x [] h m = cc
All-member P x (y ∷ ys) h m = elim (Bool-cases (text_eq x y)) [
  | inl e ↦ subst P (sym ((text_eq_iff x y).0 e)) h.0
  | inr f ↦ All-member P x ys h.1 (ground arith)
]

subset_of :
    (xs ys : List Text)
    → ((x : Text) → member text_eq x xs ≡ true → member text_eq x ys ≡ true)
    → subset xs ys ≡ true
subset_of [] ys h = refl
subset_of (x ∷ xs) ys h =
    rw (h x (rw (text_eq_refl x)), subset_of xs ys (λ y m. h y (ground (arith))))

subset-member :
    (xs ys : List Text) (x : Text)
    → subset xs ys ≡ true
    → member text_eq x xs ≡ true
    → member text_eq x ys ≡ true
subset-member (y ∷ xs) ys x h m = ground (arith, text_eq_iff x y, subset-member xs ys x)
subset-member [] ys x h m = cc

all-In :
    {t : TaskContract} {ts : List TaskContract} (p : TaskContract → Bool)
    → all p ts ≡ true
    → In t ts
    → p t ≡ true
all-In {t} p h (here {xs = ts}) = (&&-eq-true (p t) (all p ts) h).0
all-In p h (there {y = u} {xs = ts} i) = all-In p (&&-eq-true (p u) (all p ts) h).1 i

-- Unique identifiers, and every dependency declared.
record IsDeclared (tasks : List TaskContract) : Type 0 where
  distinct : Distinct (ids tasks)
  declared : all (λ t. subset (all_dependencies t) (ids tasks)) tasks ≡ true

-- An outcome of `dependency_graph` that its two guards do not give is that of the sort.
sorted_outcome :
    (tasks : List TaskContract) (r : Result GraphError (List Text))
    → r ≢ err duplicate_task_ids
    → r ≢ err missing_dependencies
    → dependency_graph tasks ≡ r
    → (topological_order tasks ≡ r) × IsDeclared tasks
unfolding dependency_graph
sorted_outcome tasks r not_duplicate not_missing h =
    let unique : count_distinct text_eq (ids tasks) ≡ length tasks = ground arith in
    let same : count_distinct text_eq (ids tasks) ≡ length (ids tasks) =
      omega (arith, unique, length-ids tasks) in
    (
      ground arith,
      record { distinct = count_distinct-Distinct (ids tasks) same; declared = ground arith },
    )

-- What the sort returns, by whether the loop placed every task.
topological_order_lem :
    (tasks : List TaskContract) (last : List Text)
    → drain tasks (length tasks + 1) [] (indegree tasks) (sources tasks) ≡ some last
    → topological_order tasks
      ≡ (if eqb (length last) (length tasks) then ok last else err dependency_cycle)
unfolding topological_order
topological_order_lem tasks last e = ground arith

-- A graph that is built lists each declared task exactly once, and after all its required and
-- optional dependencies.
pub dependency_graph-ok :
    (tasks : List TaskContract) {order : List Text}
    → dependency_graph tasks ≡ ok order
    → SameItems order (ids tasks) × (respects tasks [] order ≡ true)
dependency_graph-ok tasks {order} h =
    let (sorted, d) = sorted_outcome tasks (ok order) (λ e. cc) (λ e. cc) h in
    let (last, deg, drained, inv) = finished tasks d.distinct in
    let outcome = topological_order_lem tasks last drained in
    let same : last ≡ order = ground arith in
    let full : length last ≡ length tasks = ground arith in
    subst (λ o. SameItems o (ids tasks) × (respects tasks [] o ≡ true)) same
      (
        Includes-SameItems last (ids tasks) (λ j. omega (arith, inv.known j))
            (omega (arith, full, length-ids tasks)),
        inv.respected,
      )

met_declared :
    (ts : List TaskContract) (seen : List Text) (id : Text)
    → all (λ t. subset (all_dependencies t) seen) ts ≡ true
    → met ts seen id ≡ true
met_declared [] seen id h = refl
met_declared (t ∷ ts) seen id h =
    let (now, later) = &&-eq-true (subset (all_dependencies t) seen) _ h in
    rw (now, met_declared ts seen id later) (ground arith)

-- In a graph that is built the dependencies of each task are declared.
pub dependency_graph-met :
    (tasks : List TaskContract) {order : List Text}
    → dependency_graph tasks ≡ ok order
    → (id : Text) → met tasks (ids tasks) id ≡ true
dependency_graph-met tasks {order} h id =
    let (_, d) = sorted_outcome tasks (ok order) (λ e. cc) (λ e. cc) h in
    met_declared tasks (ids tasks) id d.declared

-- The `while` loop of the sort ends: no input exhausts the fuel of the model, which is one more
-- than the number of tasks.
pub dependency_graph-ne-out_of_fuel :
    (tasks : List TaskContract) → dependency_graph tasks ≢ err out_of_fuel
dependency_graph-ne-out_of_fuel tasks h =
    let (sorted, d) = sorted_outcome tasks (err out_of_fuel) (λ e. cc) (λ e. cc) h in
    let (last, deg, drained, inv) = finished tasks d.distinct in
    let outcome = topological_order_lem tasks last drained in ground arith

module _ (tasks : List TaskContract) (rank : Text → ℕ) (ranked : IsRanked rank tasks)
    (d : IsDeclared tasks) (last : List Text) (deg : Text → ℕ)
    (inv : Inv tasks d.distinct last deg []) where
  -- Every task of small rank is placed, by induction on the bound of the ranks.
  placed_below :
      (n : ℕ) (t : TaskContract)
      → In t tasks
      → rank t.task_id < n
      → member text_eq t.task_id last ≡ true
  placed_below zero t i h = absurd (omega arith)
  placed_below (suc n) t i h = placed_of_dependencies tasks d.distinct last deg t inv i (
      subset_of (all_dependencies t) last λ x m.
        let known = subset-member (all_dependencies t) (ids tasks) x (all-In _ d.declared i) m in
        let (u, j, e) = task_of_id x tasks known in
        let below : rank x < rank t.task_id =
          All-member (λ d. rank d < rank t.task_id) x (all_dependencies t) (All-In _ ranked i) m in
        subst (λ k. member text_eq k last ≡ true) e (placed_below n u j (rw e (omega arith))))

  all_placed : length last ≡ length tasks
  all_placed = omega (
    arith,
    length-known tasks d.distinct last [] deg inv,
    length-ids tasks,
    length-Includes (ids tasks) last every,
  )
    where
      every : Includes last (ids tasks)
      every j = elim (Bool-cases (member text_eq j (ids tasks))) [
        | inl m ↦
            let (t, i, e) = task_of_id j tasks m in
            let here : member text_eq j last ≡ true =
              subst (λ k. member text_eq k last ≡ true) e
                (placed_below (suc (rank t.task_id)) t i (omega arith)) in
            omega (arith, Distinct-count (ids tasks) j d.distinct, member-count j last here)
        | inr n ↦ ground (arith, count-member j (ids tasks), member-count j (ids tasks))
      ]

-- A set of tasks whose dependencies can be ranked is never reported as cyclic.
pub dependency_graph-ne-cycle :
    (tasks : List TaskContract) (rank : Text → ℕ)
    → IsRanked rank tasks
    → dependency_graph tasks ≢ err dependency_cycle
dependency_graph-ne-cycle tasks rank ranked h =
    let (sorted, d) = sorted_outcome tasks (err dependency_cycle) (λ e. cc) (λ e. cc) h in
    let (last, deg, drained, inv) = finished tasks d.distinct in
    let outcome = topological_order_lem tasks last drained in
    let full = all_placed tasks rank ranked d last deg inv in ground arith
