-- ===== src/Prelude/Sort.antt =====
-- `slice::sort_by`, which is stable, and the order and the contents of what it returns.
use Prim.Native.Nat.{suc}
use mathlib.Core.Path.{◌≡◌, refl}
use native.Mathlib.Omega.{arith}
use mathlib.Core.Logic.{inl, inr}
use mathlib.Core.Bool.{Bool, true, false}
use mathlib.Core.List.{List, [], ◌∷◌, Perm}
use mathlib.Core.List.Perm
use burnly.Prelude.Tests.{if◌then◌else◌, Bool-cases}
use burnly.Prelude.Lists.{All, In, length}

module _ {A : Type 0} (le : A → A → Bool) where
  -- An element goes before the first one that it is not after.
  unfoldable pub place : A → List A → List A
  place x [] = x ∷ []
  place x (y ∷ ys) = let rest = place x ys in if le x y then x ∷ y ∷ ys else y ∷ rest

  unfoldable pub sort_by : List A → List A
  unfolding place
  sort_by [] = []
  sort_by (x ∷ xs) = place x (sort_by xs)

  -- Every element is not after any that follows it.
  abbrev pub IsOrdered : List A → Type 0
  IsOrdered [] = Unit
  IsOrdered (x ∷ xs) = All (λ y. le x y ≡ true) xs × IsOrdered xs

  place-perm : (x : A) (ys : List A) → Perm (place x ys) (x ∷ ys)
  unfolding place
  place-perm x [] = Perm.refl (x ∷ [])
  place-perm x (y ∷ ys) = elim (Bool-cases (le x y)) [
    | inl before ↦ rw before (Perm.refl (x ∷ y ∷ ys))
    | inr after ↦ rw after (Perm.trans (Perm.cons y (place-perm x ys)) (Perm.swap x y ys))
  ]

  -- Sorting only reorders.
  pub sort_by-perm : (xs : List A) → Perm (sort_by xs) xs
  unfolding sort_by
  sort_by-perm [] = Perm.refl []
  sort_by-perm (x ∷ xs) = Perm.trans (place-perm x (sort_by xs)) (Perm.cons x (sort_by-perm xs))

  length-place : (x : A) (ys : List A) → length (place x ys) ≡ suc (length ys)
  unfolding place
  length-place x [] = refl
  length-place x (y ∷ ys) = ground (arith, length-place x ys)

  pub length-sort_by : (xs : List A) → length (sort_by xs) ≡ length xs
  unfolding sort_by
  length-sort_by [] = refl
  length-sort_by (x ∷ xs) = omega (arith, length-place x (sort_by xs), length-sort_by xs)

  placed-In :
      (b : Bool) (w x y : A) (ys rest : List A)
      → (In w rest → In w (x ∷ ys))
      → In w (if b then x ∷ y ∷ ys else y ∷ rest)
      → In w (x ∷ y ∷ ys)
  placed-In true w x y ys rest h i = i
  placed-In false w x y ys rest h (inl e) = inr (inl e)
  placed-In false w x y ys rest h (inr i) = elim (h i) [ inl e ↦ inl e | inr j ↦ inr (inr j) ]

  place-In : (w x : A) (ys : List A) → In w (place x ys) → In w (x ∷ ys)
  unfolding place
  place-In w x [] i = i
  place-In w x (y ∷ ys) i = placed-In _ w x y ys (place x ys) (place-In w x ys) i

  -- What stands in the sorted list was there.
  pub sort_by-In : (w : A) (xs : List A) → In w (sort_by xs) → In w xs
  unfolding sort_by
  sort_by-In w [] i = i
  sort_by-In w (x ∷ xs) i = elim (place-In w x (sort_by xs) i) [
    | inl e ↦ inl e
    | inr j ↦ inr (sort_by-In w xs j)
  ]

  module _ (total : (x y : A) → le x y ≡ false → le y x ≡ true)
      (transitive : (x y z : A) → le x y ≡ true → le y z ≡ true → le x z ≡ true) where
    All-trans :
        (x y : A) (zs : List A)
        → le x y ≡ true
        → All (λ z. le y z ≡ true) zs
        → All (λ z. le x z ≡ true) zs
    All-trans x y [] h k = tt
    All-trans x y (z ∷ zs) h k = (transitive x y z h k.0, All-trans x y zs h k.1)

    All-place :
        (w x : A) (ys : List A)
        → le w x ≡ true
        → All (λ y. le w y ≡ true) ys
        → All (λ y. le w y ≡ true) (place x ys)
    unfolding place
    All-place w x [] h k = (h, tt)
    All-place w x (y ∷ ys) h k = elim (Bool-cases (le x y)) [
      | inl before ↦ rw before (h, k)
      | inr after ↦ rw after (k.0, All-place w x ys h k.1)
    ]

    place-IsOrdered : (x : A) (ys : List A) → IsOrdered ys → IsOrdered (place x ys)
    unfolding place
    place-IsOrdered x [] h = (tt, tt)
    place-IsOrdered x (y ∷ ys) h = elim (Bool-cases (le x y)) [
      | inl before ↦ rw before ((before, All-trans x y ys before h.0), h)
      | inr after ↦ rw after (All-place y x ys (total x y after) h.0, place-IsOrdered x ys h.1)
    ]

    -- By a total order, the sorted list is in order.
    pub sort_by-IsOrdered : (xs : List A) → IsOrdered (sort_by xs)
    unfolding sort_by
    sort_by-IsOrdered [] = tt
    sort_by-IsOrdered (x ∷ xs) = place-IsOrdered x (sort_by xs) (sort_by-IsOrdered xs)
