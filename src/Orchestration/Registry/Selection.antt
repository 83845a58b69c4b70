-- ===== src/Orchestration/Registry/Selection.antt =====
-- What `select` of the registry promises to the scheduler.
use affective_belief_persist.Prelude.{
  unique, subst, ap, ◌⊎◌, ◌>>=◌, In_none, ◌≡◌, refl, sym, ◌∙◌, inl, inr, Bool, true, false,
  Bool-cases, List, [], ◌∷◌, any, map, In, here, there, Result, ok, err, Text, text_eq, text_eq_iff,
  text_le, arith, if◌then◌else◌, Result-cases, ◌↔◌,
}
use affective_belief_persist.Orchestration.Paths.{PathError}
use affective_belief_persist.Orchestration.Registry.{
  AgentDefinition, RegistryError, path_error, no_available_agent, AgentRegistryConfig,
  validate_agents, Demand, eligible, candidates, least_agent, select,
}

text_le_refl : (s : Text) → text_le s s ≡ true
text_le_refl [] = refl
text_le_refl (c ∷ s) = ground (arith, text_le_refl s)

text_le_trans : (s t u : Text) → text_le s t ≡ true → text_le t u ≡ true → text_le s u ≡ true
text_le_trans [] t u h k = refl
text_le_trans (c ∷ s) [] u h k = absurd (cc h)
text_le_trans (c ∷ s) (d ∷ t) [] h k = absurd (cc k)
text_le_trans (c ∷ s) (d ∷ t) (e ∷ u) h k = ground (arith, text_le_trans s t u)

text_le_total : (s t : Text) → text_le s t ≡ false → text_le t s ≡ true
text_le_total [] t h = absurd (cc h)
text_le_total (c ∷ s) [] h = refl
text_le_total (c ∷ s) (d ∷ t) h = ground (arith, text_le_total s t)

text_le_antisym : (s t : Text) → text_le s t ≡ true → text_le t s ≡ true → s ≡ t
text_le_antisym [] [] h k = refl
text_le_antisym [] (c ∷ t) h k = absurd (cc k)
text_le_antisym (c ∷ s) [] h k = absurd (cc h)
text_le_antisym (c ∷ s) (d ∷ t) h k = ground (arith, text_le_antisym s t)

-- `a` stands in the list, and no identifier there is smaller.
record IsLeast (a : AgentDefinition) (agents : List AgentDefinition) : Type 0 where
  found : In a agents
  below : (b : AgentDefinition) → In b agents → text_le a.agent_id b.agent_id ≡ true

IsLeast-one : (a : AgentDefinition) → IsLeast a (a ∷ [])
IsLeast-one a = record { found = here; below = λ b i. only b i }
  where
    only : (b : AgentDefinition) → In b (a ∷ []) → text_le a.agent_id b.agent_id ≡ true
    only b here = text_le_refl a.agent_id
    only b (there i) = absurd (In_none i)

IsLeast-keep :
    (l best a : AgentDefinition) (rest : List AgentDefinition)
    → text_le best.agent_id a.agent_id ≡ true
    → IsLeast l (best ∷ rest)
    → IsLeast l (best ∷ a ∷ rest)
IsLeast-keep l best a rest le k = record { found = wider l k.found; below = λ b i. under b i }
  where
    wider : (m : AgentDefinition) → In m (best ∷ rest) → In m (best ∷ a ∷ rest)
    wider m here = here
    wider m (there i) = there (there i)

    under : (b : AgentDefinition) → In b (best ∷ a ∷ rest) → text_le l.agent_id b.agent_id ≡ true
    under b here = k.below best here
    under b (there here) = text_le_trans l.agent_id best.agent_id a.agent_id (k.below best here) le
    under b (there (there i)) = k.below b (there i)

IsLeast-next :
    (l best a : AgentDefinition) (rest : List AgentDefinition)
    → text_le best.agent_id a.agent_id ≡ false
    → IsLeast l (a ∷ rest)
    → IsLeast l (best ∷ a ∷ rest)
IsLeast-next l best a rest gt k = record { found = there k.found; below = λ b i. under b i }
  where
    under : (b : AgentDefinition) → In b (best ∷ a ∷ rest) → text_le l.agent_id b.agent_id ≡ true
    under b here =
        text_le_trans l.agent_id a.agent_id best.agent_id (k.below a here)
          (text_le_total best.agent_id a.agent_id gt)
    under b (there i) = k.below b i

least_agent-IsLeast :
    (best : AgentDefinition) (rest : List AgentDefinition)
    → IsLeast (least_agent best rest) (best ∷ rest)
least_agent-IsLeast best [] = IsLeast-one best
least_agent-IsLeast best (a ∷ rest) = elim (Bool-cases (text_le best.agent_id a.agent_id)) [
  | inl le ↦
      rw le (IsLeast-keep (least_agent best rest) best a rest le (least_agent-IsLeast best rest))
  | inr gt ↦ rw gt (IsLeast-next (least_agent a rest) best a rest gt (least_agent-IsLeast a rest))
]

-- What the loop collects: the agents that fit, or the first error.
abbrev Collected : Demand → List AgentDefinition → Result PathError (List AgentDefinition) → Type 0
Collected d agents (ok found) =
    ((b : AgentDefinition) → In b found → In b agents × (eligible d b ≡ ok true))
    × ((b : AgentDefinition)
        → In b agents
        → ((eligible d b ≡ ok true) × In b found) ⊎ (eligible d b ≡ ok false))
Collected d agents (err p) = (b : AgentDefinition) × In b agents × (eligible d b ≡ err p)

Collected-step :
    (d : Demand) (a : AgentDefinition) (rest : List AgentDefinition) (fits : Bool)
    (later : Result PathError (List AgentDefinition))
    → eligible d a ≡ ok fits
    → Collected d rest later
    → Collected d (a ∷ rest) (later >>= λ found. ok (if fits then a ∷ found else found))
Collected-step d a rest fits (err p) e (b, i, raised) = (b, there i, raised)
Collected-step d a rest true (ok found) e (sound, complete) = (λ b i. chosen b i, λ b i. listed b i)
  where
    chosen : (b : AgentDefinition) → In b (a ∷ found) → In b (a ∷ rest) × (eligible d b ≡ ok true)
    chosen b here = (here, e)
    chosen b (there i) = (there (sound b i).0, (sound b i).1)

    listed :
        (b : AgentDefinition)
        → In b (a ∷ rest)
        → ((eligible d b ≡ ok true) × In b (a ∷ found)) ⊎ (eligible d b ≡ ok false)
    listed b here = inl (e, here)
    listed b (there i) = elim (complete b i) [
      | inl (fit, j) ↦ inl (fit, there j)
      | inr out ↦ inr out
    ]
Collected-step d a rest false (ok found) e (sound, complete) =
    (λ b i. (there (sound b i).0, (sound b i).1), λ b i. listed b i)
  where
    listed :
        (b : AgentDefinition)
        → In b (a ∷ rest)
        → ((eligible d b ≡ ok true) × In b found) ⊎ (eligible d b ≡ ok false)
    listed b here = inr e
    listed b (there i) = complete b i

candidates-Collected :
    (d : Demand) (agents : List AgentDefinition) → Collected d agents (candidates d agents)
unfolding candidates
candidates-Collected d [] = (λ b i. absurd (In_none i), λ b i. absurd (In_none i))
candidates-Collected d (a ∷ rest) = elim (Result-cases (eligible d a)) [
  | inl (fits, e) ↦
      rw e (Collected-step d a rest fits (candidates d rest) e (candidates-Collected d rest))
  | inr (p, raised) ↦ rw raised (a, here, raised)
]

-- The agent is eligible, and no eligible one has a smaller identifier.
pub record IsSelected (c : AgentRegistryConfig) (d : Demand) (a : AgentDefinition) : Type 0 where
  pub listed : In a c.agents
  pub fits : eligible d a ≡ ok true
  pub least :
      (b : AgentDefinition)
      → In b c.agents
      → eligible d b ≡ ok true
      → text_le a.agent_id b.agent_id ≡ true

-- Each answer with its reason.
abbrev pub Explained : AgentRegistryConfig → Demand → Result RegistryError AgentDefinition → Type 0
Explained c d (ok a) = IsSelected c d a
Explained c d (err e) =
    ((e ≡ no_available_agent) × ((b : AgentDefinition) → In b c.agents → eligible d b ≡ ok false))
    ⊎ ((p : PathError) × (e ≡ path_error p)
        × ((b : AgentDefinition) × In b c.agents × (eligible d b ≡ err p)))

-- `select` returns an eligible agent with the least identifier, or says that none is available when
-- every agent was found not eligible, or raises what the path check of some agent raises.
pub select-Explained : (c : AgentRegistryConfig) (d : Demand) → Explained c d (select c d)
unfolding select
select-Explained c d = elim (Result-cases (candidates d c.agents)) [
  | inl (found, e) ↦
      rw e (answer found (subst (Collected d c.agents) e (candidates-Collected d c.agents)))
  | inr (p, raised) ↦
      let (b, i, k) = subst (Collected d c.agents) raised (candidates-Collected d c.agents) in
      rw raised (inr (p, refl, (b, i, k)))
]
  where
    answer :
        (found : List AgentDefinition)
        → Collected d c.agents (ok found)
        → Explained c d
            (elim found [ [] ↦ err no_available_agent | a ∷ rest ↦ ok (least_agent a rest) ])
    answer [] (sound, complete) =
        inl (refl, λ b i. elim (complete b i) [ inl (fit, j) ↦ absurd (In_none j) | inr out ↦ out ])
    answer (a ∷ rest) (sound, complete) =
        let k = least_agent-IsLeast a rest in
        let (listed, fits) = sound (least_agent a rest) k.found in
        record {
          listed = listed;
          fits = fits;
          least = λ b j fit. elim (complete b j) [
            | inl (again, i) ↦ k.below b i
            | inr out ↦ absurd (cc (fit, out))
          ];
        }

any-In :
    (a b : AgentDefinition) (agents : List AgentDefinition)
    → In b agents
    → a.agent_id ≡ b.agent_id
    → any (λ y. text_eq a.agent_id y) (map (λ x. x.agent_id) agents) ≡ true
any-In a b [] i h = absurd (In_none i)
any-In a b (x ∷ agents) here h = rw ((text_eq_iff a.agent_id b.agent_id).1 h) refl
any-In a b (x ∷ agents) (there i) h = ground (arith, any-In a b agents i h)

unique-In :
    (a b : AgentDefinition) (agents : List AgentDefinition)
    → unique (map (λ x. x.agent_id) agents) ≡ true
    → In a agents
    → In b agents
    → a.agent_id ≡ b.agent_id
    → a ≡ b
unfolding unique
unique-In a b [] u i j h = absurd (In_none i)
unique-In a b (x ∷ agents) u here here h = refl
unique-In a b (x ∷ agents) u here (there j) h = absurd (ground (arith, any-In a b agents j h))
unique-In a b (x ∷ agents) u (there i) here h = absurd (ground (arith, any-In b a agents i (sym h)))
unique-In a b (x ∷ agents) u (there i) (there j) h = unique-In a b agents (ground arith) i j h

-- In a validated registry whose path checks raise for no agent, `select` returns an agent exactly
-- when it is eligible and has the least identifier of the eligible ones; there is at most one such.
pub select_iff :
    (c : AgentRegistryConfig) (d : Demand) (a : AgentDefinition)
    → validate_agents c ≡ ok tt
    → ((b : AgentDefinition) → In b c.agents → (fits : Bool) × (eligible d b ≡ ok fits))
    → (select c d ≡ ok a) ↔ IsSelected c d a
unfolding validate_agents
select_iff c d a v checked = (
  λ h. subst (Explained c d) h (select-Explained c d),
  λ s. elim (Result-cases (select c d)) [
    | inl (b, h) ↦ h ∙ ap ok (the_same b s (subst (Explained c d) h (select-Explained c d)))
    | inr (e, h) ↦ absurd (never e s (subst (Explained c d) h (select-Explained c d)))
  ],
)
  where
    the_same : (b : AgentDefinition) → IsSelected c d a → IsSelected c d b → b ≡ a
    the_same b s t = unique-In b a c.agents (ground arith) t.listed s.listed (
        text_le_antisym b.agent_id a.agent_id (t.least a s.listed s.fits)
          (s.least b t.listed t.fits))

    never : (e : RegistryError) → IsSelected c d a → Explained c d (err e) → ⊥
    never e s (inl (is_none, nobody)) = cc (nobody a s.listed, s.fits)
    never e s (inr (p, raised, (b, i, k))) = let (fits, r) = checked b i in cc (r, k)
