-- ===== src/CollectSync/Batch/Chunks.antt =====
-- `slice::chunks`: pieces of a given length, and a last one that may be shorter.
use burnly.Prelude.{
  ℕ, zero, suc, ◌≤◌, ◌≡◌, refl, ap, Option, none, some, List, [], ◌∷◌, ◌++◌, length, All, ◌==◌,
  if◌then◌else◌, arith,
}

module _ {A : Type 0} where
  abbrev take : ℕ → List A → List A
  take zero xs = []
  take (suc n) [] = []
  take (suc n) (x ∷ xs) = x ∷ take n xs

  abbrev drop : ℕ → List A → List A
  drop zero xs = xs
  drop (suc n) [] = []
  drop (suc n) (x ∷ xs) = drop n xs

  -- One piece at a time. Each takes at least one element, so the length of the list is fuel enough.
  pieces_from : ℕ → ℕ → List A → List (List A)
  pieces_from zero n xs = []
  pieces_from (suc fuel) n [] = []
  pieces_from (suc fuel) n (x ∷ xs) = take n (x ∷ xs) ∷ pieces_from fuel n (drop n (x ∷ xs))

  -- `none` is the panic on a length of 0.
  unfoldable pub chunks : ℕ → List A → Option (List (List A))
  unfolding pieces_from
  chunks n xs = if n == 0 then none else some (pieces_from (length xs) n xs)

  abbrev pub concat : List (List A) → List A
  concat [] = []
  concat (xs ∷ xss) = xs ++ concat xss

  abbrev pub IsPiece : ℕ → List A → Type 0
  IsPiece n xs = (1 ≤ length xs) × (length xs ≤ n)

  take-append-drop : (n : ℕ) (xs : List A) → take n xs ++ drop n xs ≡ xs
  take-append-drop zero xs = refl
  take-append-drop (suc n) [] = refl
  take-append-drop (suc n) (x ∷ xs) = ap (λ ys. x ∷ ys) (take-append-drop n xs)

  length-take-le : (n : ℕ) (xs : List A) → length (take n xs) ≤ n
  length-take-le zero xs = omega arith
  length-take-le (suc n) [] = omega arith
  length-take-le (suc n) (x ∷ xs) = omega (arith, length-take-le n xs)

  length-drop-le : (n : ℕ) (xs : List A) → length (drop n xs) ≤ length xs
  length-drop-le zero xs = omega arith
  length-drop-le (suc n) [] = omega arith
  length-drop-le (suc n) (x ∷ xs) = omega (arith, length-drop-le n xs)

  concat-pieces_from :
      (fuel n : ℕ) (xs : List A) → length xs ≤ fuel → concat (pieces_from fuel (suc n) xs) ≡ xs
  unfolding pieces_from
  concat-pieces_from zero n [] h = refl
  concat-pieces_from zero n (x ∷ xs) h = absurd (omega arith)
  concat-pieces_from (suc fuel) n [] h = refl
  concat-pieces_from (suc fuel) n (x ∷ xs) h =
      rw (concat-pieces_from fuel n (drop n xs) (omega (arith, length-drop-le n xs)))
        (take-append-drop (suc n) (x ∷ xs))

  pieces_from-IsPiece :
      (fuel n : ℕ) (xs : List A) → All (IsPiece (suc n)) (pieces_from fuel (suc n) xs)
  unfolding pieces_from
  pieces_from-IsPiece zero n xs = tt
  pieces_from-IsPiece (suc fuel) n [] = tt
  pieces_from-IsPiece (suc fuel) n (x ∷ xs) =
      ((omega arith, omega (arith, length-take-le n xs)), pieces_from-IsPiece fuel n (drop n xs))

  -- What `chunks` returns, at a positive size.
  pub chunks-pieces :
      (n : ℕ) (xs : List A)
      → 1 ≤ n
      → (xss : List (List A)) × (chunks n xs ≡ some xss) × (concat xss ≡ xs) × All (IsPiece n) xss
  unfolding chunks
  chunks-pieces zero xs h = absurd (omega arith)
  chunks-pieces (suc n) xs h = (
    pieces_from (length xs) (suc n) xs,
    ground arith,
    concat-pieces_from (length xs) n xs (omega arith),
    pieces_from-IsPiece (length xs) n xs,
  )
