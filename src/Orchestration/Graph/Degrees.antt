-- ===== src/Orchestration/Graph/Degrees.antt =====
-- The degrees and the dependents of a task whose identifier no other task has.
use affective_belief_persist.Prelude.{
  count, count-append, ◌≡◌, List, length, arith, Text, text_eq_iff, text_eq_refl, In, here, there,
}
use affective_belief_persist.Orchestration.Contracts.{TaskContract}
use affective_belief_persist.Orchestration.Graph.{
  all_dependencies, ids, repeated, dependents, indegree,
}
use affective_belief_persist.Orchestration.Graph.Counting.{count-repeated, count-dependents_other}
use affective_belief_persist.Orchestration.Graph.Multisets.{Distinct, id_of_task}

pub count-dependents :
    (d : Text) {t : TaskContract} {ts : List TaskContract}
    → In t ts
    → Distinct (ids ts)
    → count t.task_id (dependents ts d) ≡ count d (all_dependencies t)
unfolding dependents
count-dependents d {t} (here {xs = ts}) h = ground (
  arith,
  count-append t.task_id (repeated t.task_id d (all_dependencies t)) (dependents ts d),
  count-repeated t.task_id t.task_id d (all_dependencies t),
  text_eq_refl t.task_id,
  count-dependents_other ts t.task_id d h.0,
)
count-dependents d {t} (there {y = u} {xs = ts} i) h = ground (
  arith,
  count-append t.task_id (repeated u.task_id d (all_dependencies u)) (dependents ts d),
  count-repeated t.task_id u.task_id d (all_dependencies u),
  text_eq_iff t.task_id u.task_id,
  count-dependents d i h.1,
  id_of_task i,
)

pub indegree_lem :
    {t : TaskContract} {ts : List TaskContract}
    → In t ts
    → Distinct (ids ts)
    → indegree ts t.task_id ≡ length (all_dependencies t)
unfolding indegree
indegree_lem {t} here h = rw (text_eq_refl t.task_id)
indegree_lem {t} (there {y = u} i) h =
    ground (arith, text_eq_iff u.task_id t.task_id, id_of_task i, indegree_lem i h.1)
