-- ===== src/Orchestration/Paths/Overlap.antt =====
-- `paths_overlap` against its meaning: a concrete path that lies in both scopes.
use mathlib.Core.List.{append-nil}
use affective_belief_persist.Prelude.{
  ◌≡◌, refl, sym, ◌∙◌, ◌↔◌, ◌⊎◌, inl, inr, Bool, true, false, not, ◌&&◌, List, [], ◌∷◌, ◌++◌,
  length, ltb, eqb, min, arith, if◌then◌else◌, ok, Text, text_eq, text_eq_iff, ends_with, take,
  &&-eq-true, ap, >>=-eq-ok,
}
use affective_belief_persist.Orchestration.Paths.{
  subtree_suffix, scope_prefix, parts_eq, scopes_overlap, normalize_scope, paths_overlap,
}

-- A scope lets in its own path and, if it is a subtree, every path below.
pub data Within (parts : List Text) : Bool → List Text → Type 0 where
  itself : {below : Bool} → Within parts below parts
  below : (rest : List Text) {path : List Text} → path ≡ parts ++ rest → Within parts true path

abbrev pub Covers : Text → List Text → Type 0
Covers scope path = Within (scope_prefix scope) (ends_with subtree_suffix scope) path

-- The comparison of the parts, apart from the texts.
overlap_parts : List Text → Bool → List Text → Bool → Bool
overlap_parts [] l [] r = true
overlap_parts [] l (q ∷ qs) r = l
overlap_parts (p ∷ ps) l [] r = r
overlap_parts (p ∷ ps) l (q ∷ qs) r = text_eq p q && overlap_parts ps l qs r

compared : List Text → Bool → List Text → Bool → Bool
compared ps l qs r =
    if not
      (parts_eq (take (min (length ps) (length qs)) ps) (take (min (length ps) (length qs)) qs))
    then false
    else if eqb (length ps) (length qs)
    then true
    else if ltb (length ps) (length qs)
    then l
    else r

compared-parts :
    (ps : List Text) (l : Bool) (qs : List Text) (r : Bool)
    → compared ps l qs r ≡ overlap_parts ps l qs r
unfolding compared overlap_parts
compared-parts [] l [] r = refl
compared-parts [] l (q ∷ qs) r = ground arith
compared-parts (p ∷ ps) l [] r = ground arith
compared-parts (p ∷ ps) l (q ∷ qs) r = ground (arith, text_eq_iff p q, compared-parts ps l qs r)

Within-cons :
    (p : Text) {ps path : List Text} {l : Bool} → Within ps l path → Within (p ∷ ps) l (p ∷ path)
Within-cons p itself = itself
Within-cons p (below rest e) = below rest (ap (λ t. p ∷ t) e)

-- The path below a scope's own, and when there may be one.
Within-rest :
    {ps path : List Text} {l : Bool}
    → Within ps l path
    → (rest : List Text) × (path ≡ ps ++ rest) × ((l ≡ true) ⊎ (rest ≡ []))
Within-rest {ps} itself = ([], sym (append-nil ps), inr refl)
Within-rest (below rest e) = (rest, e, inl refl)

shared_path :
    (ps : List Text) (l : Bool) (qs : List Text) (r : Bool)
    → overlap_parts ps l qs r ≡ true
    → (path : List Text) × Within ps l path × Within qs r path
unfolding overlap_parts
shared_path [] l [] r h = ([], itself, itself)
shared_path [] true (q ∷ qs) r h = (q ∷ qs, below (q ∷ qs) refl, itself)
shared_path [] false (q ∷ qs) r h = cc
shared_path (p ∷ ps) l [] true h = (p ∷ ps, itself, below (p ∷ ps) refl)
shared_path (p ∷ ps) l [] false h = cc
shared_path (p ∷ ps) l (q ∷ qs) r h =
    let (same, later) = &&-eq-true (text_eq p q) (overlap_parts ps l qs r) h in
    let (path, a, b) = shared_path ps l qs r later in
    let e : p ≡ q = (text_eq_iff p q).0 same in (p ∷ path, Within-cons p a, rw e (Within-cons q b))

overlap_of_rests :
    (ps : List Text) (l : Bool) (qs : List Text) (r : Bool) (x y : List Text)
    → ps ++ x ≡ qs ++ y
    → (l ≡ true) ⊎ (x ≡ [])
    → (r ≡ true) ⊎ (y ≡ [])
    → overlap_parts ps l qs r ≡ true
unfolding overlap_parts
overlap_of_rests [] l [] r x y e a b = refl
overlap_of_rests [] l (q ∷ qs) r x y e a b = ground arith
overlap_of_rests (p ∷ ps) l [] r x y e a b = ground arith
overlap_of_rests (p ∷ ps) l (q ∷ qs) r x y e a b =
    let same : p ≡ q = cc e in
    let later : ps ++ x ≡ qs ++ y = cc e in
    ground (arith, (text_eq_iff p q).1 same, overlap_of_rests ps l qs r x y later a b)

overlap_of_paths :
    (ps : List Text) (l : Bool) (qs : List Text) (r : Bool) (path : List Text)
    → Within ps l path
    → Within qs r path
    → overlap_parts ps l qs r ≡ true
overlap_of_paths ps l qs r path a b =
    let (x, e, c) = Within-rest a in
    let (y, f, d) = Within-rest b in overlap_of_rests ps l qs r x y (sym e ∙ f) c d

overlap_parts_comm :
    (ps : List Text) (l : Bool) (qs : List Text) (r : Bool)
    → overlap_parts ps l qs r ≡ overlap_parts qs r ps l
unfolding overlap_parts
overlap_parts_comm [] l [] r = refl
overlap_parts_comm [] l (q ∷ qs) r = refl
overlap_parts_comm (p ∷ ps) l [] r = refl
overlap_parts_comm (p ∷ ps) l (q ∷ qs) r =
    ground (arith, text_eq_iff p q, text_eq_iff q p, overlap_parts_comm ps l qs r)

scopes_overlap-parts :
    (l r : Text)
    → scopes_overlap l r
      ≡ overlap_parts
          (scope_prefix l)
          (ends_with subtree_suffix l)
          (scope_prefix r)
          (ends_with subtree_suffix r)
unfolding scopes_overlap compared
scopes_overlap-parts l r =
    compared-parts (scope_prefix l) (ends_with subtree_suffix l) (scope_prefix r)
      (ends_with subtree_suffix r)

pub scopes_overlap_comm : (l r : Text) → scopes_overlap l r ≡ scopes_overlap r l
scopes_overlap_comm l r =
    rw (scopes_overlap-parts l r, scopes_overlap-parts r l) (overlap_parts_comm _ _ _ _)

paths_overlap-scopes :
    (left right l r : Text)
    → normalize_scope left ≡ ok l
    → normalize_scope right ≡ ok r
    → paths_overlap left right ≡ ok (scopes_overlap l r)
unfolding paths_overlap
paths_overlap-scopes left right l r p q = rw (p, q)

-- On scopes that normalize, `paths_overlap` answers yes exactly when some path lies in both: a
-- plain scope holds its own path, a `/**` scope its own and every path below.
pub paths_overlap_iff :
    (left right l r : Text)
    → normalize_scope left ≡ ok l
    → normalize_scope right ≡ ok r
    → (paths_overlap left right ≡ ok true) ↔ ((path : List Text) × Covers l path × Covers r path)
paths_overlap_iff left right l r p q = (
  λ h. shared_path _ _ _ _ (cc (paths_overlap-scopes left right l r p q, scopes_overlap-parts l r)),
  λ (path, a, b).
      rw (paths_overlap-scopes left right l r p q, scopes_overlap-parts l r)
        (ap ok (overlap_of_paths _ _ _ _ path a b)),
)

-- The answer does not depend on the order of the two scopes.
pub paths_overlap_comm :
    (left right : Text) (b : Bool)
    → paths_overlap left right ≡ ok b
    → paths_overlap right left ≡ ok b
unfolding paths_overlap
paths_overlap_comm left right b h =
    let (l, p, h') = >>=-eq-ok (normalize_scope left) _ h in
    let (r, q, e) = >>=-eq-ok (normalize_scope right) _ h' in
    rw (q, p) (ap ok (scopes_overlap_comm r l) ∙ e)
