-- ===== src/Common/Sorting.antt =====
-- `Array.prototype.sort`: a stable sort. `le a b` says that the comparison of a with b is not above
-- zero.
use everyup.Common.Tests.{if◌then◌else◌, Bool-cases}
use everyup.Common.Lists.{keep, All}
use mathlib.Core.Path.{◌≡◌, refl}
use mathlib.Core.Bool.{Bool, true, false, ◌&&◌}
use mathlib.Core.List.{List, [], ◌∷◌}
use mathlib.Core.Logic.{inl, inr}
use native.Mathlib.Omega.{arith}

module _ {ℓ} {A : Type ℓ} (le : A → A → Bool) where
  unfoldable pub insert_by : A → List A → List A
  insert_by x [] = x ∷ []
  insert_by x (y ∷ ys) = let rest = insert_by x ys in if le x y then x ∷ y ∷ ys else y ∷ rest

  unfoldable pub sort_by : List A → List A
  unfolding insert_by
  sort_by [] = []
  sort_by (x ∷ xs) = insert_by x (sort_by xs)

  -- Every element is before or level with all that follow it.
  abbrev pub IsSorted : List A → Type ℓ
  IsSorted [] = Unit
  IsSorted (x ∷ xs) = All (λ y. le x y ≡ true) xs × IsSorted xs

  All-insert_by {κ} :
      (P : A → Type κ) (x : A) (ys : List A) → P x → All P ys → All P (insert_by x ys)
  unfolding insert_by
  All-insert_by P x [] h k = (h, tt)
  All-insert_by P x (y ∷ ys) h k = elim (Bool-cases (le x y)) [
    | inl e ↦ rw e (h, k)
    | inr e ↦ rw e (k.0, All-insert_by P x ys h k.1)
  ]

  pub All-sort_by {κ} : (P : A → Type κ) (xs : List A) → All P xs → All P (sort_by xs)
  unfolding sort_by
  All-sort_by P [] h = tt
  All-sort_by P (x ∷ xs) h = All-insert_by P x (sort_by xs) h.0 (All-sort_by P xs h.1)

  -- Sorting keeps the order of the elements of a class whose members compare level: so it loses
  -- none, adds none, and is stable.
  keep-insert_by :
      (q : A → Bool) (x : A) (ys : List A)
      → ((a b : A) → q a ≡ true → q b ≡ true → le a b ≡ true)
      → keep q (insert_by x ys) ≡ keep q (x ∷ ys)
  unfolding insert_by
  keep-insert_by q x [] h = refl
  keep-insert_by q x (y ∷ ys) h = elim (Bool-cases (le x y)) [
    | inl e ↦ rw e
    | inr e ↦ rw e (ground (arith, keep-insert_by q x ys h, h x y))
  ]

  pub keep-sort_by :
      (q : A → Bool) (xs : List A)
      → ((a b : A) → q a ≡ true → q b ≡ true → le a b ≡ true)
      → keep q (sort_by xs) ≡ keep q xs
  unfolding sort_by
  keep-sort_by q [] h = refl
  keep-sort_by q (x ∷ xs) h =
      rw (keep-insert_by q x (sort_by xs) h) (ground (arith, keep-sort_by q xs h))

  module _ (total : (a b : A) → le a b ≡ false → le b a ≡ true)
      (transitive : (a b c : A) → le a b ≡ true → le b c ≡ true → le a c ≡ true) where
    below :
        (x y : A) (ys : List A)
        → le x y ≡ true
        → All (λ z. le y z ≡ true) ys
        → All (λ z. le x z ≡ true) ys
    below x y [] h k = tt
    below x y (z ∷ zs) h k = (transitive x y z h k.0, below x y zs h k.1)

    insert_by-IsSorted : (x : A) (ys : List A) → IsSorted ys → IsSorted (insert_by x ys)
    unfolding insert_by
    insert_by-IsSorted x [] h = (tt, tt)
    insert_by-IsSorted x (y ∷ ys) h = elim (Bool-cases (le x y)) [
      | inl e ↦ rw e ((e, below x y ys e h.0), h)
      | inr e ↦
          rw e
            (All-insert_by (λ z. le y z ≡ true) x ys (total x y e) h.0, insert_by-IsSorted x ys h.1)
    ]

    pub sort_by-IsSorted : (xs : List A) → IsSorted (sort_by xs)
    unfolding sort_by
    sort_by-IsSorted [] = tt
    sort_by-IsSorted (x ∷ xs) = insert_by-IsSorted x (sort_by xs) (sort_by-IsSorted xs)

    level_le : (a b c : A) → (le a b && le b a) ≡ true → (le a c && le c a) ≡ true → le b c ≡ true
    level_le a b c h k = transitive b a c (ground arith) (ground arith)

    -- The elements that are level with one of them stay in their order.
    pub sort_by_stable :
        (a : A) (xs : List A)
        → keep (λ b. le a b && le b a) (sort_by xs) ≡ keep (λ b. le a b && le b a) xs
    sort_by_stable a xs = keep-sort_by (λ b. le a b && le b a) xs (level_le a)

-- A list that is sorted is sorted in any order that holds where that one does.
pub IsSorted-as {ℓ} :
    {A : Type ℓ} (p q : A → A → Bool) (xs : List A)
    → ((a b : A) → p a b ≡ true → q a b ≡ true)
    → IsSorted p xs
    → IsSorted q xs
IsSorted-as p q [] h s = tt
IsSorted-as p q (x ∷ xs) h (a, s) = (all_as xs a, IsSorted-as p q xs h s)
  where
    all_as : (ys : List _) → All (λ y. p x y ≡ true) ys → All (λ y. q x y ≡ true) ys
    all_as [] k = tt
    all_as (y ∷ ys) k = (h x y k.0, all_as ys k.1)

pub keep_as {ℓ} :
    {A : Type ℓ} (p q : A → Bool) (xs : List A) → ((a : A) → p a ≡ q a) → keep p xs ≡ keep q xs
keep_as p q [] h = refl
keep_as p q (x ∷ xs) h = ground (arith, h x, keep_as p q xs h)
