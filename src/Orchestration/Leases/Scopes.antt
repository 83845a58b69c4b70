-- ===== src/Orchestration/Leases/Scopes.antt =====
-- orchestration/leases.py: `_canonical_scopes`, the scopes that a lease covers.
use affective_belief_persist.Prelude.{
  Bool, true, false, List, [], ◌∷◌, ◌++◌, if◌then◌else◌, Result, ok, ◌>>=◌, ◌>>◌, raise_if, Text,
  text_eq, text_le, ends_with,
}
use affective_belief_persist.Orchestration.Paths.{subtree_suffix, normalize_scope, paths_overlap}
use affective_belief_persist.Orchestration.Leases.Records.{LeaseError, no_paths, lift_path}

-- sorted(...), by insertion: of texts without duplicates.
unfoldable pub insert_text : Text → List Text → List Text
insert_text t [] = t ∷ []
insert_text t (u ∷ us) =
    if text_eq t u then u ∷ us else if text_le t u then t ∷ u ∷ us else u ∷ insert_text t us

unfoldable pub sorted_texts : List Text → List Text
unfolding insert_text
sorted_texts [] = []
sorted_texts (t ∷ ts) = insert_text t (sorted_texts ts)

-- {_normalize_scope(path) for path in paths}
unfoldable pub normalize_scopes : List Text → Result LeaseError (List Text)
unfolding normalize_scope
normalize_scopes [] = ok []
normalize_scopes (p ∷ ps) = do
  s ← lift_path (normalize_scope p)
  rest ← normalize_scopes ps
  ok (s ∷ rest)

-- any(parent.endswith("/**") and paths_overlap(parent, scope) for parent in result)
unfoldable pub has_parent : Text → List Text → Result LeaseError Bool
unfolding paths_overlap ends_with
has_parent scope [] = ok false
has_parent scope (parent ∷ rest) =
    let later = has_parent scope rest in
    if ends_with subtree_suffix parent
    then (lift_path (paths_overlap parent scope) >>= λ b. if b then ok true else later)
    else later

-- The loop of `_canonical_scopes` over the sorted scopes, with the `result` so far.
unfoldable pub drop_nested : List Text → List Text → Result LeaseError (List Text)
unfolding has_parent
drop_nested result [] = ok result
drop_nested result (scope ∷ rest) = has_parent scope result >>= λ nested.
    drop_nested (if nested then result else result ++ scope ∷ []) rest

abbrev pub no_scopes : List Text → Bool
no_scopes [] = true
no_scopes (s ∷ ss) = false

unfoldable pub canonical_scopes : List Text → Result LeaseError (List Text)
unfolding normalize_scopes drop_nested sorted_texts
canonical_scopes paths = do
  normalized ← normalize_scopes paths
  raise_if (no_scopes normalized) no_paths
  drop_nested [] (sorted_texts normalized)
