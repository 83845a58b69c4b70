-- ===== src/Orchestration/Supervisor/OnePass.antt =====
-- `_propagate_dependency_failures` over the topological order of a graph.
use affective_belief_persist.Prelude.{
  count-member, member-count, ℕ, ◌+◌, ◌≤◌, ◌≡◌, sym, inl, inr, Bool, true, false, List, [], ok,
  Text, text_eq, member, arith,
}
use affective_belief_persist.Orchestration.Contracts.{TaskContract}
use affective_belief_persist.Orchestration.Graph.{ids, dependency_graph}
use affective_belief_persist.Orchestration.Graph.Multisets.{SameItems}
use affective_belief_persist.Orchestration.Graph.Topological.{dependency_graph-ok}
use affective_belief_persist.Orchestration.Supervisor.{Supervisor}
use affective_belief_persist.Orchestration.Supervisor.Steps.{IsAudited}
use affective_belief_persist.Orchestration.Supervisor.Propagation.{propagate_dependency_failures}
use affective_belief_persist.Orchestration.Supervisor.Closure.{Settled, HasStates, propagate_lem}

pub member-same :
    (xs ys : List Text) (j : Text)
    → SameItems xs ys
    → member text_eq j xs ≡ true
    → member text_eq j ys ≡ true
member-same xs ys j same h = elim (count-member j ys) [
  | inl none_there ↦ absurd (omega (arith, none_there, same j, member-count j xs h))
  | inr found ↦ found
]

-- On an audited supervisor with a state for every task of a graph that was built,
-- `_propagate_dependency_failures` never raises, keeps the audit, and one pass is enough: afterwards
-- no declared task that is still PENDING, READY or RETRY has a required dependency that is BLOCKED,
-- ESCALATED or CANCELLED.
pub one_pass :
    (clock : ℕ → ℕ) (monotone : (n : ℕ) → clock n ≤ clock (n + 1)) (tasks : List TaskContract)
    (order : List Text) (v : Supervisor)
    → dependency_graph tasks ≡ ok order
    → IsAudited clock v
    → HasStates tasks v
    → (w : Supervisor) × (changed : Bool) × (propagate_dependency_failures clock tasks v order
        ≡ ok (w, changed))
      × IsAudited clock w
      × ((id : Text) → member text_eq id (ids tasks) ≡ true → Settled tasks w id)
unfolding propagate_dependency_failures
one_pass clock monotone tasks order v g a s =
    let (same, ordered) = dependency_graph-ok tasks g in
    let (w, c, h, p) =
      propagate_lem clock monotone tasks v false [] order
        (record { audited = a; stated = s; settled = λ j b. absurd (cc b) })
        (record { known = λ j b. absurd (cc b); before = λ j d c b. absurd (cc b) })
        (λ j. member-same order (ids tasks) j same) ordered in
    (
      w,
      c,
      h,
      p.audited,
      λ id b. p.settled id (member-same (ids tasks) order id (λ j. sym (same j)) b),
    )
