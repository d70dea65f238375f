-- ===== src/Common/Tally.antt =====
-- Maps that are filled row by row, and what they add up to.
use Prim.Native.Nat.{ℕ, zero, suc, ◌+◌, ◌≤◌}
use mathlib.Core.Path.{◌≡◌, refl, ap, sym, ◌∙◌}
use mathlib.Core.Logic.{inl, inr}
use mathlib.Core.Bool.{Bool}
use mathlib.Core.List.{List, [], ◌∷◌, ◌++◌}
use native.Mathlib.Omega.{arith}
use everyup.Common.Tests.{if◌then◌else◌, Bool-cases}
use everyup.Common.Lists.{length, take, drop}
use everyup.Common.Sorting.{sort_by, insert_by}

module _ {ℓ κ} {K : Type ℓ} {V : Type κ} where
  -- `get`, and `set` with a new value or a changed one.
  abbrev pub upsert : (K → Bool) → K → V → (V → V) → List (K × V) → List (K × V)
  upsert same k new f [] = (k, new) ∷ []
  upsert same k new f ((j, v) ∷ m) =
      let rest = upsert same k new f m in if same j then (j, f v) ∷ m else (j, v) ∷ rest

  -- `[...map.values()]`.
  abbrev pub values : List (K × V) → List V
  values [] = []
  values ((k, v) ∷ m) = v ∷ values m

module _ {ℓ} {V : Type ℓ} where
  abbrev pub sum_of : (V → ℕ) → List V → ℕ
  sum_of f [] = 0
  sum_of f (v ∷ vs) = f v + sum_of f vs

  sum_of-insert_by :
      (le : V → V → Bool) (f : V → ℕ) (v : V) (vs : List V)
      → sum_of f (insert_by le v vs) ≡ f v + sum_of f vs
  unfolding insert_by
  sum_of-insert_by le f v [] = refl
  sum_of-insert_by le f v (w ∷ ws) = ground (arith, sum_of-insert_by le f v ws)

  pub sum_of-sort_by :
      (le : V → V → Bool) (f : V → ℕ) (vs : List V) → sum_of f (sort_by le vs) ≡ sum_of f vs
  unfolding sort_by
  sum_of-sort_by le f [] = refl
  sum_of-sort_by le f (v ∷ vs) =
      let a = sum_of-insert_by le f v (sort_by le vs) in
      let b = sum_of-sort_by le f vs in omega (arith, a, b)

  pub sum_of-append : (f : V → ℕ) (vs ws : List V) → sum_of f (vs ++ ws) ≡ sum_of f vs + sum_of f ws
  sum_of-append f [] ws = omega arith
  sum_of-append f (v ∷ vs) ws = omega (arith, sum_of-append f vs ws)

pub sum_of-upsert {ℓ κ} :
    {K : Type ℓ} {V : Type κ} (f : V → ℕ) (n : ℕ) (same : K → Bool) (k : K) (new : V) (g : V → V)
    (m : List (K × V))
    → f new ≡ n
    → ((v : V) → f (g v) ≡ f v + n)
    → sum_of f (values (upsert same k new g m)) ≡ sum_of f (values m) + n
sum_of-upsert f n same k new g [] h c = omega (arith, h)
sum_of-upsert f n same k new g ((j, v) ∷ m) h c = elim (Bool-cases (same j)) [
  | inl e ↦ rw e (omega (arith, c v))
  | inr e ↦ rw e (omega (arith, sum_of-upsert f n same k new g m h c))
]

from_zero : (k : ℕ) → k ≡ 0 + k
from_zero k = omega arith

suc_out : (n k : ℕ) → suc (n + k) ≡ suc n + k
suc_out n k = omega arith

-- Pages of a list, one after the other.
module _ {ℓ} {A : Type ℓ} where
  take_nil : (n : ℕ) → take {A = A} n [] ≡ []
  take_nil zero = refl
  take_nil (suc n) = refl

  drop_nil : (n : ℕ) → drop {A = A} n [] ≡ []
  drop_nil zero = refl
  drop_nil (suc n) = refl

  pub take-drop_split : (n k : ℕ) (xs : List A) → take n xs ++ take k (drop n xs) ≡ take (n + k) xs
  take-drop_split zero k xs = ap (λ n. take n xs) (from_zero k)
  take-drop_split (suc n) k [] = take_nil k ∙ sym (take_nil (suc n + k))
  take-drop_split (suc n) k (x ∷ xs) =
      ap (λ ys. x ∷ ys) (take-drop_split n k xs) ∙ ap (λ m. take m (x ∷ xs)) (suc_out n k)

  pub drop-drop : (n k : ℕ) (xs : List A) → drop k (drop n xs) ≡ drop (n + k) xs
  drop-drop zero k xs = ap (λ n. drop n xs) (from_zero k)
  drop-drop (suc n) k [] = drop_nil k ∙ sym (drop_nil (suc n + k))
  drop-drop (suc n) k (x ∷ xs) = drop-drop n k xs ∙ ap (λ m. drop m (x ∷ xs)) (suc_out n k)

  pub take_all : (n : ℕ) (xs : List A) → length xs ≤ n → take n xs ≡ xs
  take_all zero [] h = refl
  take_all (suc n) [] h = refl
  take_all (suc n) (x ∷ xs) h = ap (λ ys. x ∷ ys) (take_all n xs (omega (arith, h)))
  take_all zero (x ∷ xs) h = absurd (omega (arith, h))
