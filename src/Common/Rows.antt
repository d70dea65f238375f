-- ===== src/Common/Rows.antt =====
-- Rows with a text key, as the fixtures and the lists of the client hold them.
use everyup.Common.Tests.{Bool-cases}
use everyup.Common.Lists.{update_first, remove_first}
use everyup.Common.Texts.{includes}
use Prim.Native.String.{String}
use mathlib.Core.Path.{◌≡◌, refl}
use mathlib.Core.Bool.{Bool, false}
use mathlib.Core.List.{List, [], ◌∷◌, ◌++◌, map}
use mathlib.Core.Logic.{inl, inr}
use native.Mathlib.Omega.{arith}
use text.Mathlib.Text.{◌==◌}
use text.Mathlib.TextEquality.{eq_iff}

-- No text stands twice.
abbrev pub Distinct : List String → Type 0
Distinct [] = Unit
Distinct (x ∷ xs) = (includes x xs ≡ false) × Distinct xs

includes-append_fresh :
    (k x : String) (xs : List String)
    → includes k xs ≡ false
    → (x == k) ≡ false
    → includes k (xs ++ x ∷ []) ≡ false
includes-append_fresh k x [] h e = rw e
includes-append_fresh k x (y ∷ ys) h e = ground (arith, includes-append_fresh k x ys)

pub Distinct-append :
    (x : String) (xs : List String) → includes x xs ≡ false → Distinct xs → Distinct (xs ++ x ∷ [])
Distinct-append x [] h d = (refl, tt)
Distinct-append x (y ∷ ys) h d = (
  includes-append_fresh y x ys d.0 (ground (arith, eq_iff x y, eq_iff y x)),
  Distinct-append x ys (ground arith) d.1,
)

module _ {ℓ} {A : Type ℓ} (key : A → String) where
  -- An assignment that keeps keys leaves the list of keys as it was.
  pub keys-update_first :
      (p : A → Bool) (f : A → A) (xs : List A)
      → ((x : A) → key (f x) ≡ key x)
      → map key (update_first p f xs) ≡ map key xs
  keys-update_first p f [] h = refl
  keys-update_first p f (x ∷ xs) h = elim (Bool-cases (p x)) [
    | inl e ↦ rw (e, h x)
    | inr e ↦ rw (e, keys-update_first p f xs h)
  ]

  pub keys-map :
      (f : A → A) (xs : List A) → ((x : A) → key (f x) ≡ key x) → map key (map f xs) ≡ map key xs
  keys-map f [] h = refl
  keys-map f (x ∷ xs) h = rw (h x, keys-map f xs h)

  includes-remove_first :
      (k : String) (p : A → Bool) (xs : List A)
      → includes k (map key xs) ≡ false
      → includes k (map key (remove_first p xs)) ≡ false
  includes-remove_first k p [] h = h
  includes-remove_first k p (x ∷ xs) h = ground (arith, includes-remove_first k p xs)

  pub Distinct-remove_first :
      (p : A → Bool) (xs : List A) → Distinct (map key xs) → Distinct (map key (remove_first p xs))
  Distinct-remove_first p [] d = tt
  Distinct-remove_first p (x ∷ xs) d =
      ground (arith, includes-remove_first (key x) p xs, Distinct-remove_first p xs d.1)

  pub keys-append : (xs : List A) (x : A) → map key (xs ++ x ∷ []) ≡ map key xs ++ key x ∷ []
  keys-append [] x = refl
  keys-append (y ∷ ys) x = rw (keys-append ys x)

  -- With distinct keys, nothing has the key of the row that was removed.
  pub includes-remove_first_self :
      (k : String) (xs : List A)
      → Distinct (map key xs)
      → includes k (map key (remove_first (λ x. key x == k) xs)) ≡ false
  includes-remove_first_self k [] d = refl
  includes-remove_first_self k (x ∷ xs) d = elim (Bool-cases (key x == k)) [
    | inl e ↦ rw (e, ← (eq_iff (key x) k).0 e) d.0
    | inr e ↦ rw (e, e) (includes-remove_first_self k xs d.1)
  ]
