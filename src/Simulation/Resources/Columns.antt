-- ===== src/Simulation/Resources/Columns.antt =====
-- Columns of the debits without repetition, and their sum, when a debit is added.
use affective_belief_persist.Prelude.{
  suc, ◌+◌, ◌≡◌, refl, ◌∙◌, true, false, List, [], ◌∷◌, ◌++◌, any, map, length-append, member,
  count_distinct, Text, text_eq, arith,
}
use affective_belief_persist.Simulation.Resources.{ResourceDebit, spent, all_distinct}

member-end :
    (x y : Text) (xs : List Text)
    → text_eq x y ≡ false
    → member text_eq x (xs ++ y ∷ []) ≡ member text_eq x xs
member-end x y [] h = ground arith
member-end x y (z ∷ zs) h = ground (arith, member-end x y zs h)

count_distinct-snoc :
    (xs : List Text) (y : Text)
    → any (λ x. text_eq x y) xs ≡ false
    → count_distinct text_eq (xs ++ y ∷ []) ≡ suc (count_distinct text_eq xs)
count_distinct-snoc [] y h = refl
count_distinct-snoc (x ∷ xs) y h =
    let head : text_eq x y ≡ false = ground arith in
    let tail : any (λ z. text_eq z y) xs ≡ false = ground arith in
    rw (member-end x y xs head) (ground (arith, count_distinct-snoc xs y tail))

all_distinct-snoc :
    (xs : List Text) (y : Text)
    → any (λ x. text_eq x y) xs ≡ false
    → all_distinct xs ≡ true
    → all_distinct (xs ++ y ∷ []) ≡ true
unfolding all_distinct
all_distinct-snoc xs y h d = ground (arith, count_distinct-snoc xs y h, length-append xs (y ∷ []))

pub spent-snoc :
    (ds : List ResourceDebit) (d : ResourceDebit) → spent (ds ++ d ∷ []) ≡ spent ds + d.amount
spent-snoc [] d = omega arith
spent-snoc (e ∷ ds) d = omega (arith, spent-snoc ds d)

any-map :
    (f : ResourceDebit → Text) (y : Text) (ds : List ResourceDebit)
    → any (λ x. text_eq x y) (map f ds) ≡ any (λ d. text_eq (f d) y) ds
any-map f y [] = refl
any-map f y (d ∷ ds) = ground (arith, any-map f y ds)

map-snoc :
    (f : ResourceDebit → Text) (ds : List ResourceDebit) (d : ResourceDebit)
    → map f (ds ++ d ∷ []) ≡ map f ds ++ f d ∷ []
map-snoc f [] d = refl
map-snoc f (e ∷ ds) d = cc (map-snoc f ds d)

-- A column of the debits stays without repetition when a new value is added.
pub column-distinct :
    (f : ResourceDebit → Text) (ds : List ResourceDebit) (d : ResourceDebit)
    → any (λ e. text_eq (f e) (f d)) ds ≡ false
    → all_distinct (map f ds) ≡ true
    → all_distinct (map f (ds ++ d ∷ [])) ≡ true
column-distinct f ds d h k =
    rw (map-snoc f ds d) (all_distinct-snoc (map f ds) (f d) (any-map f (f d) ds ∙ h) k)
