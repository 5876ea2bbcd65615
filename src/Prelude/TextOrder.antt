-- ===== src/Prelude/TextOrder.antt =====
-- The order of texts.
use Prim.Native.Nat.{Ordering}
use mathlib.Core.Path.{◌≡◌, refl}
use mathlib.Core.Bool.{Bool, true, false}
use mathlib.Core.List.{[], ◌∷◌}
use native.Mathlib.Omega.{arith}
use burnly.Prelude.Text.{Text, text_compare}

-- `s <= t`
abbrev pub text_le : Text → Text → Bool
text_le s t = elim (text_compare s t) [ Ordering.gt ↦ false | _ ↦ true ]

pub text_compare_refl : (s : Text) → text_compare s s ≡ Ordering.eq
text_compare_refl [] = refl
text_compare_refl (x ∷ s) = ground (arith, text_compare_refl s)

pub text_compare-eq : (s t : Text) → text_compare s t ≡ Ordering.eq → s ≡ t
text_compare-eq [] [] h = refl
text_compare-eq [] (y ∷ t) h = cc
text_compare-eq (x ∷ s) [] h = cc
text_compare-eq (x ∷ s) (y ∷ t) h = ground (arith, text_compare-eq s t)

-- Comparing the other way round.
abbrev pub flip : Ordering → Ordering
flip Ordering.lt = Ordering.gt
flip Ordering.eq = Ordering.eq
flip Ordering.gt = Ordering.lt

pub text_compare-flip : (s t : Text) → text_compare t s ≡ flip (text_compare s t)
text_compare-flip [] [] = refl
text_compare-flip [] (y ∷ t) = refl
text_compare-flip (x ∷ s) [] = refl
text_compare-flip (x ∷ s) (y ∷ t) = ground (arith, text_compare-flip s t)

pub text_compare-lt_trans :
    (s t u : Text)
    → text_compare s t ≡ Ordering.lt
    → text_compare t u ≡ Ordering.lt
    → text_compare s u ≡ Ordering.lt
text_compare-lt_trans [] [] u h k = cc
text_compare-lt_trans [] (y ∷ t) [] h k = cc
text_compare-lt_trans [] (y ∷ t) (z ∷ u) h k = refl
text_compare-lt_trans (x ∷ s) [] u h k = cc
text_compare-lt_trans (x ∷ s) (y ∷ t) [] h k = cc
text_compare-lt_trans (x ∷ s) (y ∷ t) (z ∷ u) h k = ground (arith, text_compare-lt_trans s t u)

pub text_le_refl : (s : Text) → text_le s s ≡ true
text_le_refl s = ground (arith, text_compare_refl s)

pub text_le_trans : (s t u : Text) → text_le s t ≡ true → text_le t u ≡ true → text_le s u ≡ true
text_le_trans s t u h k =
    ground (arith, text_compare-lt_trans s t u, text_compare-eq s t, text_compare-eq t u)

pub text_le-total : (s t : Text) → text_le s t ≡ false → text_le t s ≡ true
text_le-total s t h = ground (arith, text_compare-flip s t)
