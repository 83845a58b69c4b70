-- ===== src/Orchestration/Paths.antt =====
-- orchestration/registry.py and leases.py: repository paths and path scopes as texts.
mod Examples
pub mod Overlap
use affective_belief_persist.Prelude.{
  ℕ, Bool, true, false, not, ◌&&◌, ◌||◌, List, [], ◌∷◌, ◌++◌, any, keep, length, ltb, eqb, min,
  if◌then◌else◌, Result, ok, err, ◌>>=◌, ◌>>◌, raise_if, Text, codes, text_eq, null, strip, rstrip,
  ends_with, take, drop_last, split, join, member,
}

abbrev pub slash : ℕ
slash = b'/'

-- `AgentAuthorizationError` by its cause. `no_first_part` is the `IndexError` of `parts[0]` on a
-- path without parts.
pub data PathError : Type 0 where
  empty_path backslash absolute not_canonical wildcard git_metadata no_first_part : PathError
  wildcard_not_terminal : PathError

abbrev pub has_wildcard : Text → Bool
has_wildcard s = any (λ c. member eqb c (codes "*?[]")) s

abbrev pub starts_with_slash : Text → Bool
starts_with_slash [] = false
starts_with_slash (c ∷ s) = eqb c slash

-- `PurePosixPath(s).parts` of a relative path: empty parts and `.` are dropped.
unfoldable pub pure_parts : Text → List Text
unfolding split
pure_parts s = keep (λ part. not (null part) && not (text_eq part (codes "."))) (split slash s)

abbrev pub first_is_git : List Text → Result PathError Bool
first_is_git [] = err no_first_part
first_is_git (part ∷ parts) = ok (text_eq part (codes ".git"))

unfoldable pub normalize_repository_path : Text → Result PathError Text
unfolding strip pure_parts join
normalize_repository_path path = do
  let candidate = strip path
  raise_if (null candidate) empty_path
  raise_if (member eqb b'\\' candidate) backslash
  raise_if (starts_with_slash candidate) absolute
  raise_if
      (any (λ part. null part || (text_eq part (codes ".") || text_eq part (codes "..")))
        (pure_parts candidate))
      not_canonical
  raise_if (has_wildcard candidate) wildcard
  git ← first_is_git (pure_parts candidate)
  raise_if git git_metadata
  ok (join slash (pure_parts candidate))

abbrev pub subtree_suffix : Text
subtree_suffix = codes "/**"

-- `normalize_allowed_path`, and `_normalize_scope` up to the class of what it raises
unfoldable pub normalize_scope : Text → Result PathError Text
unfolding strip rstrip ends_with normalize_repository_path
normalize_scope path_pattern = do
  let candidate = rstrip (eqb slash) (strip path_pattern)
  let subtree = ends_with subtree_suffix candidate
  let prefix = if subtree then drop_last 3 candidate else candidate
  raise_if (has_wildcard prefix) wildcard_not_terminal
  normalized ← normalize_repository_path prefix
  ok (if subtree then normalized ++ subtree_suffix else normalized)

-- `_scope_prefix`
unfoldable pub scope_prefix : Text → List Text
unfolding ends_with split
scope_prefix scope =
    split slash (if ends_with subtree_suffix scope then drop_last 3 scope else scope)

abbrev pub parts_eq : List Text → List Text → Bool
parts_eq [] [] = true
parts_eq [] (q ∷ qs) = false
parts_eq (p ∷ ps) [] = false
parts_eq (p ∷ ps) (q ∷ qs) = text_eq p q && parts_eq ps qs

-- The end of `paths_overlap`, on the normalized scopes.
unfoldable pub scopes_overlap : Text → Text → Bool
scopes_overlap left right =
    let left_parts = scope_prefix left in
    let right_parts = scope_prefix right in
    let common = min (length left_parts) (length right_parts) in
    if not (parts_eq (take common left_parts) (take common right_parts))
    then false
    else if eqb (length left_parts) (length right_parts)
    then true
    else if ltb (length left_parts) (length right_parts)
    then ends_with subtree_suffix left
    else ends_with subtree_suffix right

unfoldable pub paths_overlap : Text → Text → Result PathError Bool
paths_overlap left right = do
  left_scope ← normalize_scope left
  right_scope ← normalize_scope right
  ok (scopes_overlap left_scope right_scope)

-- `normalized == prefix or normalized.startswith(f"{prefix}/")`
abbrev pub starts_with : Text → Text → Bool
starts_with [] s = true
starts_with (c ∷ p) [] = false
starts_with (c ∷ p) (d ∷ s) = eqb c d && starts_with p s

unfoldable pub covered_by : Text → Text → Bool
unfolding ends_with
covered_by pattern normalized =
    if ends_with subtree_suffix pattern
    then (let prefix = drop_last 3 pattern in
        text_eq normalized prefix || starts_with (prefix ++ slash ∷ []) normalized)
    else text_eq normalized pattern

-- The loop of `path_is_allowed`.
any_covers : Text → List Text → Result PathError Bool
any_covers normalized [] = ok false
any_covers normalized (raw ∷ rest) =
    let later = any_covers normalized rest in
    normalize_scope raw >>= λ pattern. if covered_by pattern normalized then ok true else later

unfoldable pub path_is_allowed : Text → List Text → Result PathError Bool
unfolding any_covers
path_is_allowed path allowed = do
  normalized ← normalize_repository_path path
  any_covers normalized allowed
