-- ===== src/Orchestration/Leases/Workers.antt =====
-- The worker limit: how the calls change the set of agents that hold a lease.
use affective_belief_persist.Prelude.{
  ℕ, ◌+◌, ◌≤◌, ◌≡◌, Bool, true, List, [], ◌∷◌, map, keep, arith, if◌then◌else◌, ok, Text, text_eq,
  text_eq_iff, member, count_distinct, count_mono,
}
use affective_belief_persist.Orchestration.Leases.{PathLease, put_lease, find_lease, renewed}

abbrev pub agents : List PathLease → List Text
agents as' = map (λ lease. lease.agent_id) as'

agents-keep :
    (p : PathLease → Bool) (as' : List PathLease) (g : Text)
    → member text_eq g (agents (keep p as')) ≡ true
    → member text_eq g (agents as') ≡ true
agents-keep p [] g h = h
agents-keep p (a ∷ as') g h = ground (arith, agents-keep p as' g)

agents-put_lease :
    (a : PathLease) (bs : List PathLease) (g : Text)
    → member text_eq g (agents (put_lease a bs)) ≡ true
    → member text_eq g (a.agent_id ∷ agents bs) ≡ true
unfolding put_lease
agents-put_lease a [] g h = h
agents-put_lease a (b ∷ bs) g h = ground (arith, agents-put_lease a bs g)

agent-find_lease :
    (id : Text) (as' : List PathLease) {a : PathLease}
    → find_lease id as' ≡ ok a
    → member text_eq a.agent_id (agents as') ≡ true
agent-find_lease id [] e = cc
agent-find_lease id (b ∷ bs) {a} e =
    ground (arith, text_eq_iff a.agent_id b.agent_id, agent-find_lease id bs {a = a})

-- Dropping leases does not raise the number of agents.
pub count-keep :
    (p : PathLease → Bool) (as' : List PathLease)
    → count_distinct text_eq (agents (keep p as')) ≤ count_distinct text_eq (agents as')
count-keep p as' = count_mono text_eq text_eq_iff _ _ (agents-keep p as')

-- Storing a lease raises it by one at most, and only for an agent that holds none.
pub count-put_lease :
    (a : PathLease) (bs : List PathLease)
    → count_distinct text_eq (agents (put_lease a bs))
      ≤ (if member text_eq a.agent_id (agents bs) then 0 else 1)
        + count_distinct text_eq (agents bs)
count-put_lease a bs =
    let h = count_mono text_eq text_eq_iff _ (a.agent_id ∷ agents bs) (agents-put_lease a bs) in
    ground arith

pub count-renewed :
    (id : Text) (as' : List PathLease) (now ttl : ℕ) {a : PathLease}
    → find_lease id as' ≡ ok a
    → count_distinct text_eq (agents (put_lease (renewed a now ttl) as'))
      ≤ count_distinct text_eq (agents as')
count-renewed id as' now ttl {a} e =
    let h = count-put_lease (renewed a now ttl) as' in
    let m = agent-find_lease id as' e in ground arith
