-- ===== src/Orchestration/Graph/Multisets.antt =====
-- Lists of identifiers compared by how often each identifier occurs.
use affective_belief_persist.Prelude.{
  count, count-member, member-count, subset, ℕ, suc, ◌+◌, ◌≤◌, ◌≡◌, refl, sym, inl, inr, true,
  false, ◌||◌, List, [], ◌∷◌, ◌++◌, length, arith, if◌then◌else◌, Text, text_eq, text_eq_iff,
  text_eq_refl, member, count_distinct, In, here, there, Bool-cases,
}
use affective_belief_persist.Orchestration.Contracts.{TaskContract}
use affective_belief_persist.Orchestration.Graph.{ids}

abbrev pub Distinct : List Text → Type 0
Distinct [] = Unit
Distinct (x ∷ xs) = (member text_eq x xs ≡ false) × Distinct xs

count_distinct-le : (xs : List Text) → count_distinct text_eq xs ≤ length xs
count_distinct-le [] = omega arith
count_distinct-le (x ∷ xs) = ground (arith, count_distinct-le xs)

-- As many distinct elements as elements: none occurs twice.
pub count_distinct-Distinct : (xs : List Text) → count_distinct text_eq xs ≡ length xs → Distinct xs
count_distinct-Distinct [] h = tt
count_distinct-Distinct (x ∷ xs) h =
    let new : member text_eq x xs ≡ false = ground (arith, count_distinct-le xs) in
    (new, count_distinct-Distinct xs (ground arith))

pub Distinct-count : (xs : List Text) (j : Text) → Distinct xs → count j xs ≤ 1
Distinct-count [] j h = omega arith
Distinct-count (x ∷ xs) j h =
    ground (arith, Distinct-count xs j h.1, text_eq_iff j x, count-member j xs)

-- The list without the first occurrence of `x`.
remove : Text → List Text → List Text
remove x [] = []
remove x (y ∷ ys) = let rest = remove x ys in if text_eq x y then ys else y ∷ rest

count-remove :
    (x j : Text) (ys : List Text)
    → 1 ≤ count x ys
    → count j ys ≡ (if text_eq j x then 1 else 0) + count j (remove x ys)
unfolding remove
count-remove x j [] h = absurd (omega arith)
count-remove x j (y ∷ ys) h =
    ground (arith, text_eq_iff x y, text_eq_iff j x, text_eq_iff j y, count-remove x j ys)

length-remove :
    (x : Text) (ys : List Text) → 1 ≤ count x ys → length ys ≡ suc (length (remove x ys))
unfolding remove
length-remove x [] h = absurd (omega arith)
length-remove x (y ∷ ys) h = ground (arith, text_eq_iff x y, length-remove x ys)

-- `ys` holds each identifier as often as `xs` at least.
abbrev pub Includes : List Text → List Text → Type 0
Includes ys xs = (j : Text) → count j xs ≤ count j ys

abbrev pub SameItems : List Text → List Text → Type 0
SameItems xs ys = (j : Text) → count j xs ≡ count j ys

Includes-remove : (x : Text) (xs ys : List Text) → Includes ys (x ∷ xs) → Includes (remove x ys) xs
Includes-remove x xs ys h j =
    let some_x : 1 ≤ count x ys = ground (arith, h x, text_eq_refl x) in
    ground (arith, h j, count-remove x j ys)

pub length-Includes : (xs ys : List Text) → Includes ys xs → length xs ≤ length ys
length-Includes [] ys h = omega arith
length-Includes (x ∷ xs) ys h =
    let some_x : 1 ≤ count x ys = ground (arith, h x, text_eq_refl x) in
    omega (
      arith,
      length-remove x ys some_x,
      length-Includes xs (remove x ys) (Includes-remove x xs ys h),
    )

pub Includes-SameItems :
    (xs ys : List Text) → Includes ys xs → length xs ≡ length ys → SameItems xs ys
Includes-SameItems [] [] h e j = refl
Includes-SameItems [] (y ∷ ys) h e j = absurd (omega arith)
Includes-SameItems (x ∷ xs) ys h e j =
    let some_x : 1 ≤ count x ys = ground (arith, h x, text_eq_refl x) in
    let same =
      Includes-SameItems xs (remove x ys) (Includes-remove x xs ys h)
        (omega (arith, length-remove x ys some_x)) in
    omega (arith, count-remove x j ys some_x, same j)

-- A declared identifier is that of a task.
pub task_of_id :
    (j : Text) (ts : List TaskContract)
    → member text_eq j (ids ts) ≡ true
    → (t : TaskContract) × In t ts × (t.task_id ≡ j)
task_of_id j [] h = cc
task_of_id j (t ∷ ts) h = elim (Bool-cases (text_eq j t.task_id)) [
  | inl e ↦ (t, here, sym ((text_eq_iff j t.task_id).0 e))
  | inr f ↦ let (u, i, e) = task_of_id j ts (ground arith) in (u, there i, e)
]

pub id_of_task :
    {t : TaskContract} {ts : List TaskContract} → In t ts → member text_eq t.task_id (ids ts) ≡ true
id_of_task {t} here = rw (text_eq_refl t.task_id)
id_of_task {t} (there {y = u} i) = ground (arith, id_of_task i)

-- The dependencies that are in the list, counted with their repetitions.
abbrev pub done : List Text → List Text → ℕ
done ordered [] = 0
done ordered (d ∷ ds) = (if member text_eq d ordered then 1 else 0) + done ordered ds

pub done-room :
    (x : Text) (ordered ds : List Text)
    → count x ordered ≡ 0
    → done ordered ds + count x ds ≤ length ds
done-room x ordered [] h = omega arith
done-room x ordered (d ∷ ds) h =
    ground (arith, text_eq_iff x d, member-count x ordered, done-room x ordered ds h)

done-le : (ordered ds : List Text) → done ordered ds ≤ length ds
done-le ordered [] = omega arith
done-le ordered (d ∷ ds) = ground (arith, done-le ordered ds)

pub done-subset : (ordered ds : List Text) → done ordered ds ≡ length ds → subset ds ordered ≡ true
done-subset ordered [] h = refl
done-subset ordered (d ∷ ds) h = ground (arith, done-le ordered ds, done-subset ordered ds)

pub subset-done : (ordered ds : List Text) → subset ds ordered ≡ true → done ordered ds ≡ length ds
subset-done ordered [] h = refl
subset-done ordered (d ∷ ds) h = ground (arith, subset-done ordered ds)

member-snoc :
    (d x : Text) (xs : List Text)
    → member text_eq d (xs ++ x ∷ []) ≡ (member text_eq d xs || text_eq d x)
member-snoc d x [] = ground arith
member-snoc d x (y ∷ ys) = ground (arith, member-snoc d x ys)

pub done-snoc :
    (x : Text) (ordered ds : List Text)
    → count x ordered ≡ 0
    → done (ordered ++ x ∷ []) ds ≡ done ordered ds + count x ds
done-snoc x ordered [] h = omega arith
done-snoc x ordered (d ∷ ds) h = ground (
  arith,
  text_eq_iff x d,
  text_eq_iff d x,
  member-count x ordered,
  member-snoc d x ordered,
  done-snoc x ordered ds h,
)
