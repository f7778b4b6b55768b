-- ===== src/Pinger/Figures/Sorting.antt =====
-- What statistics.go needs of the standard library's sorts: the result is in order, and has the same
-- elements, each as often.
use preoomkiller_controller.Common.{
  ℕ, zero, suc, ◌+◌, ◌≤◌, ◌<◌, ◌≡◌, refl, ap, ◌∙◌, Bool, true, false, List, [], ◌∷◌, length, arith,
}
use preoomkiller_controller.Common.Int.{ℤ, ◌≤ℤ◌}
use preoomkiller_controller.Pinger.Figures.{insert_sorted, sort, at}

abbrev pub one_if : Bool → ℕ
one_if true = 1
one_if false = 0

-- How many elements pass a test.
abbrev pub count : (ℤ → Bool) → List ℤ → ℕ
count p [] = 0
count p (x ∷ xs) = one_if (p x) + count p xs

abbrev pub IsAbove : ℤ → List ℤ → Type 0
IsAbove a [] = Unit {0}
IsAbove a (b ∷ bs) = (a ≤ℤ b) × IsAbove a bs

abbrev pub IsSorted : List ℤ → Type 0
IsSorted [] = Unit {0}
IsSorted (a ∷ bs) = IsAbove a bs × IsSorted bs

IsAbove-trans : (a b : ℤ) (xs : List ℤ) → a ≤ℤ b → IsAbove b xs → IsAbove a xs
IsAbove-trans a b [] h k = tt
IsAbove-trans a b (x ∷ xs) h k = (omega (arith, k.0), IsAbove-trans a b xs h k.1)

IsAbove-insert : (a b : ℤ) (xs : List ℤ) → a ≤ℤ b → IsAbove a xs → IsAbove a (insert_sorted b xs)
IsAbove-insert a b [] h k = (h, tt)
IsAbove-insert a b (x ∷ xs) h k = ground (arith, IsAbove-insert a b xs h k.1)

insert-IsSorted : (a : ℤ) (xs : List ℤ) → IsSorted xs → IsSorted (insert_sorted a xs)
insert-IsSorted a [] h = (tt, tt)
insert-IsSorted a (x ∷ xs) h =
    ground (arith, insert-IsSorted a xs h.1, IsAbove-trans a x xs, IsAbove-insert x a xs)

pub sort-IsSorted : (xs : List ℤ) → IsSorted (sort xs)
sort-IsSorted [] = tt
sort-IsSorted (x ∷ xs) = insert-IsSorted x (sort xs) (sort-IsSorted xs)

count-insert :
    (p : ℤ → Bool) (a : ℤ) (xs : List ℤ) → count p (insert_sorted a xs) ≡ one_if (p a) + count p xs
count-insert p a [] = refl
count-insert p a (x ∷ xs) = ground (arith, count-insert p a xs)

pub count-sort : (p : ℤ → Bool) (xs : List ℤ) → count p (sort xs) ≡ count p xs
count-sort p [] = refl
count-sort p (x ∷ xs) = count-insert p x (sort xs) ∙ ap (λ n. one_if (p x) + n) (count-sort p xs)

length-insert : (a : ℤ) (xs : List ℤ) → length (insert_sorted a xs) ≡ suc (length xs)
length-insert a [] = refl
length-insert a (x ∷ xs) = ground (arith, length-insert a xs)

pub length-sort : (xs : List ℤ) → length (sort xs) ≡ length xs
length-sort [] = refl
length-sort (x ∷ xs) = length-insert x (sort xs) ∙ ap suc (length-sort xs)

-- A list in order is its own sorting.
insert_of_IsAbove : (a : ℤ) (xs : List ℤ) → IsAbove a xs → insert_sorted a xs ≡ a ∷ xs
insert_of_IsAbove a [] h = refl
insert_of_IsAbove a (x ∷ xs) h = ground (arith, h.0)

pub sort_of_IsSorted : (xs : List ℤ) → IsSorted xs → sort xs ≡ xs
sort_of_IsSorted [] h = refl
sort_of_IsSorted (x ∷ xs) h =
    ap (insert_sorted x) (sort_of_IsSorted xs h.1) ∙ insert_of_IsAbove x xs h.0

IsAbove-at : (a : ℤ) (xs : List ℤ) (i : ℕ) → IsAbove a xs → i < length xs → a ≤ℤ at xs i
IsAbove-at a [] i h k = absurd (omega arith)
IsAbove-at a (x ∷ xs) zero h k = h.0
IsAbove-at a (x ∷ xs) (suc i) h k = IsAbove-at a xs i h.1 (omega arith)

pub at-le-at : (xs : List ℤ) (i j : ℕ) → IsSorted xs → i ≤ j → j < length xs → at xs i ≤ℤ at xs j
at-le-at [] i j h k l = absurd (omega arith)
at-le-at (x ∷ xs) zero zero h k l = omega arith
at-le-at (x ∷ xs) zero (suc j) h k l = IsAbove-at x xs j h.0 (omega arith)
at-le-at (x ∷ xs) (suc i) zero h k l = absurd (omega arith)
at-le-at (x ∷ xs) (suc i) (suc j) h k l = at-le-at xs i j h.1 (omega arith) (omega arith)
