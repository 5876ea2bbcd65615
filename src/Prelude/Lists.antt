-- ===== src/Prelude/Lists.antt =====
-- Lists measured by native numbers, and predicates on all elements of a list.
use Prim.Native.Nat.{ℕ, suc, ◌+◌}
use mathlib.Core.Path.{◌≡◌, refl, sym, subst}
use mathlib.Core.Logic.{◌⊎◌, inl, inr}
use mathlib.Core.Bool.{Bool, true, false, ◌&&◌, ◌||◌}
use mathlib.Core.List.{List, [], ◌∷◌, ◌++◌}
use native.Mathlib.Omega.{arith}

module _ {ℓ} {A : Type ℓ} where
  abbrev pub length : List A → ℕ
  length [] = 0
  length (x ∷ xs) = suc (length xs)

  -- `is_empty` of a `Vec` or a slice.
  abbrev pub is_empty : List A → Bool
  is_empty [] = true
  is_empty (_ ∷ _) = false

  -- `Iterator::all` and `Iterator::any`.
  abbrev pub all : (A → Bool) → List A → Bool
  all p [] = true
  all p (x ∷ xs) = p x && all p xs

  abbrev pub any : (A → Bool) → List A → Bool
  any p [] = false
  any p (x ∷ xs) = p x || any p xs

  abbrev pub All {κ} : (A → Type κ) → List A → Type κ
  All P [] = Unit
  All P (x ∷ xs) = P x × All P xs

  pub length-append : (xs ys : List A) → length (xs ++ ys) ≡ length xs + length ys
  length-append [] ys = omega arith
  length-append (x ∷ xs) ys = omega (arith, length-append xs ys)

module _ {ℓ κ} {A : Type ℓ} (P : A → Type κ) where
  pub All-append : (xs ys : List A) → All P xs → All P ys → All P (xs ++ ys)
  All-append [] ys hx hy = hy
  All-append (x ∷ xs) ys hx hy = (hx.0, All-append xs ys hx.1 hy)

module _ {A : Type 0} where
  -- Membership, with the place where the element stands.
  abbrev pub In : A → List A → Type 0
  In x [] = ⊥
  In x (y ∷ ys) = (x ≡ y) ⊎ In x ys

module _ {ℓ κ} {A : Type ℓ} (P : A → Type κ) where
  -- What holds of all of a list holds of one of its elements and of all the others.
  pub All-remove :
      (xs : List A) (x : A) (ys : List A) → All P (xs ++ x ∷ ys) → P x × All P (xs ++ ys)
  All-remove [] x ys h = h
  All-remove (w ∷ xs) x ys h =
      let ih : P x × All P (xs ++ ys) = All-remove xs x ys h.1 in (ih.0, (h.0, ih.1))

pub In-All {κ} : {A : Type 0} (P : A → Type κ) (xs : List A) (x : A) → In x xs → All P xs → P x
In-All P [] x i h = absurd i
In-All P (y ∷ ys) x (inl e) h = subst P (sym e) h.0
In-All P (y ∷ ys) x (inr i) h = In-All P ys x i h.1

pub All-of_In {κ} :
    {A : Type 0} (P : A → Type κ) (xs : List A) → ((x : A) → In x xs → P x) → All P xs
All-of_In P [] h = tt
All-of_In P (x ∷ xs) h = (h x (inl refl), All-of_In P xs (λ y i. h y (inr i)))

-- The same, of a list that is given by where one of its elements stands.
pub length-removed {ℓ} :
    {A : Type ℓ} (l xs : List A) (x : A) (ys : List A)
    → l ≡ xs ++ x ∷ ys
    → length l ≡ suc (length (xs ++ ys))
length-removed l xs x ys e = rw e (omega (arith, length-append xs (x ∷ ys), length-append xs ys))

pub All-removed {ℓ κ} :
    {A : Type ℓ} (P : A → Type κ) (l xs : List A) (x : A) (ys : List A)
    → l ≡ xs ++ x ∷ ys
    → All P l
    → P x × All P (xs ++ ys)
All-removed P l xs x ys e h = All-remove P xs x ys (rw e at h)
