-- ===== src/Orchestration/Paths/Examples.antt =====
-- Tests of the repository paths and scopes, and their theorems at concrete ones.
use affective_belief_persist.Prelude.{
  ◌≡◌, ◌↔◌, refl, true, false, List, [], ◌∷◌, ok, err, codes, Text,
}
use affective_belief_persist.Orchestration.Paths.{
  no_first_part, absolute, not_canonical, wildcard_not_terminal, git_metadata,
  normalize_repository_path, normalize_scope, scopes_overlap, scope_prefix, paths_overlap,
  path_is_allowed, covered_by,
}
use affective_belief_persist.Orchestration.Paths.Overlap.{Covers, paths_overlap_iff}

test_normalize :
    (normalize_repository_path (codes " src//./a.py ") ≡ ok (codes "src/a.py"))
    × (normalize_repository_path (codes "/src") ≡ err absolute)
    × (normalize_repository_path (codes "src/../x") ≡ err not_canonical)
    × (normalize_repository_path (codes ".git/config") ≡ err git_metadata)
unfolding normalize_repository_path
test_normalize = (refl, refl, refl, refl)

-- A path of no parts raises `IndexError` where the others raise `AgentAuthorizationError`.
test_no_parts : normalize_repository_path (codes "./.") ≡ err no_first_part
unfolding normalize_repository_path
test_no_parts = refl

test_scope :
    (normalize_scope (codes "src/**/") ≡ ok (codes "src/**"))
    × (normalize_scope (codes "src/*/a") ≡ err wildcard_not_terminal)
unfolding normalize_scope
test_scope = (refl, refl)

-- The normal form of a scope can end in a space, and then it is not its own normal form.
test_not_idempotent :
    (normalize_scope (codes "a/ /.") ≡ ok (codes "a/ "))
    × (normalize_scope (codes "a/ ") ≡ ok (codes "a"))
unfolding normalize_scope
test_not_idempotent = (refl, refl)

test_allowed :
    (path_is_allowed (codes "src/a/b.py") (codes "docs" ∷ codes "src/**" ∷ []) ≡ ok true)
    × (path_is_allowed (codes "srcs/b.py") (codes "src/**" ∷ []) ≡ ok false)
unfolding path_is_allowed normalize_repository_path normalize_scope covered_by
test_allowed = (refl, refl)

test_overlap :
    (paths_overlap (codes "src/**") (codes "src/a.py") ≡ ok true)
    × (paths_overlap (codes "src") (codes "src/a.py") ≡ ok false)
unfolding paths_overlap normalize_scope scopes_overlap scope_prefix
test_overlap = (refl, refl)

test_left : normalize_scope (codes "src/**") ≡ ok (codes "src/**")
unfolding normalize_scope
test_left = refl

test_right : normalize_scope (codes "src/a.py") ≡ ok (codes "src/a.py")
unfolding normalize_scope
test_right = refl

paths_overlap_iff_example :
    (paths_overlap (codes "src/**") (codes "src/a.py") ≡ ok true)
    ↔ ((path : List Text) × Covers (codes "src/**") path × Covers (codes "src/a.py") path)
paths_overlap_iff_example =
    paths_overlap_iff (codes "src/**") (codes "src/a.py") (codes "src/**") (codes "src/a.py")
      test_left test_right
