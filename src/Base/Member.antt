-- ===== src/Base/Member.antt =====
-- Membership in lists as a test.
use wayray.Base.Equality.{Eq, ◌==◌, ◌!=◌}
use wayray.Base.Lists.{filter}
use mathlib.Core.Path.{◌≡◌, refl}
use mathlib.Core.Bool.{Bool, true, false, ◌||◌, ◌&&◌}
use mathlib.Core.List.{List, [], ◌∷◌, ◌++◌}
use native.Mathlib.Omega.{arith}

module _ {ℓ} {A : Type ℓ} ⦃e : Eq A⦄ where
  -- `Vec::contains`
  unfoldable pub contains : A → List A → Bool
  contains a [] = false
  contains a (x ∷ xs) = (x == a) || contains a xs

  abbrev pub Distinct : List A → Type 0
  Distinct [] = Unit
  Distinct (x ∷ xs) = (contains x xs ≡ false) × Distinct xs

  pub contains-append :
      (a : A) (xs ys : List A) → contains a (xs ++ ys) ≡ (contains a xs || contains a ys)
  unfolding contains
  contains-append a [] ys = refl
  contains-append a (x ∷ xs) ys = ground (arith, contains-append a xs ys)

  -- `retain(|w| w != id)`
  pub contains-filter_ne :
      (a id : A) (xs : List A)
      → contains a (filter (λ x. x != id) xs) ≡ (contains a xs && (a != id))
  unfolding contains
  contains-filter_ne a id [] = refl
  contains-filter_ne a id (x ∷ xs) = ground (arith, contains-filter_ne a id xs)

  pub filter_ne-Distinct :
      (id : A) (xs : List A) → Distinct xs → Distinct (filter (λ x. x != id) xs)
  filter_ne-Distinct id [] u = tt
  filter_ne-Distinct id (x ∷ xs) u =
      ground (arith, filter_ne-Distinct id xs u.1, contains-filter_ne x id xs)

  pub snoc-Distinct :
      (a : A) (xs : List A) → Distinct xs → contains a xs ≡ false → Distinct (xs ++ a ∷ [])
  unfolding contains
  snoc-Distinct a [] u h = (refl, tt)
  snoc-Distinct a (x ∷ xs) u h =
      ground (arith, snoc-Distinct a xs u.1, contains-append x xs (a ∷ []))

  pub Distinct-snoc :
      (a : A) (xs : List A) → Distinct (xs ++ a ∷ []) → Distinct xs × (contains a xs ≡ false)
  unfolding contains
  Distinct-snoc a [] u = (tt, refl)
  Distinct-snoc a (x ∷ xs) u = ground (arith, Distinct-snoc a xs u.1, contains-append x xs (a ∷ []))

  -- `==` on slices
  unfoldable pub same_list : List A → List A → Bool
  same_list [] [] = true
  same_list [] (y ∷ ys) = false
  same_list (x ∷ xs) [] = false
  same_list (x ∷ xs) (y ∷ ys) = (x == y) && same_list xs ys

  pub same_list→≡ : (xs ys : List A) → same_list xs ys ≡ true → xs ≡ ys
  unfolding same_list
  same_list→≡ [] [] h = refl
  same_list→≡ [] (y ∷ ys) h = cc
  same_list→≡ (x ∷ xs) [] h = cc
  same_list→≡ (x ∷ xs) (y ∷ ys) h = ground (arith, same_list→≡ xs ys)
