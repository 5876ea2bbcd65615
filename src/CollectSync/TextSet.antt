-- ===== src/CollectSync/TextSet.antt =====
-- `BTreeSet<String>`: the strings in ascending order, each once.
use Prim.Native.Nat.{Ordering}
use burnly.Prelude.{◌≡◌, refl, Bool, true, false, ◌||◌, List, [], ◌∷◌, arith, is_empty}
use burnly.Prelude.Text.{Text, text_eq, text_eq_iff, text_compare}
use burnly.Prelude.TextOrder.{text_compare-eq}

abbrev pub TextSet : Type 0
TextSet = List Text

-- `BTreeSet::insert`
abbrev pub insert : Text → TextSet → TextSet
insert k [] = k ∷ []
insert k (x ∷ xs) =
    let rest = insert k xs in
    elim (text_compare k x) [
      | Ordering.lt ↦ k ∷ x ∷ xs
      | Ordering.eq ↦ x ∷ xs
      | Ordering.gt ↦ x ∷ rest
    ]

-- `BTreeSet::extend`, and `collect` from the empty set.
abbrev pub extend : TextSet → List Text → TextSet
extend set [] = set
extend set (k ∷ ks) = extend (insert k set) ks

abbrev pub contains : Text → List Text → Bool
contains k [] = false
contains k (x ∷ xs) = text_eq k x || contains k xs

pub contains-insert :
    (j k : Text) (xs : TextSet) → contains j (insert k xs) ≡ (text_eq j k || contains j xs)
contains-insert j k [] = refl
contains-insert j k (x ∷ xs) =
    ground (arith, contains-insert j k xs, text_compare-eq k x, text_eq_iff j k, text_eq_iff j x)

pub contains-extend :
    (j : Text) (xs : TextSet) (ks : List Text)
    → contains j (extend xs ks) ≡ (contains j ks || contains j xs)
contains-extend j xs [] = refl
contains-extend j xs (k ∷ ks) =
    ground (arith, contains-extend j (insert k xs) ks, contains-insert j k xs)

is_empty-insert : (k : Text) (xs : TextSet) → is_empty (insert k xs) ≡ false
is_empty-insert k [] = refl
is_empty-insert k (x ∷ xs) = ground arith

pub is_empty-extend :
    (xs : TextSet) (ks : List Text) → is_empty xs ≡ false → is_empty (extend xs ks) ≡ false
is_empty-extend xs [] h = h
is_empty-extend xs (k ∷ ks) h = is_empty-extend (insert k xs) ks (is_empty-insert k xs)

-- What has an element is not empty.
pub is_empty-contains : (j : Text) (xs : List Text) → contains j xs ≡ true → is_empty xs ≡ false
is_empty-contains j [] h = cc
is_empty-contains j (x ∷ xs) h = refl
