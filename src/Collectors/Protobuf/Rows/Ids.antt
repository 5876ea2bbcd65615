-- ===== src/Collectors/Protobuf/Rows/Ids.antt =====
-- The response ids of a list of records.
use burnly.Prelude.{
  ◌≡◌, refl, sym, ap, ◌∙◌, false, ◌||◌, Option, none, some, List, [], ◌∷◌, ◌++◌, arith,
}
use burnly.Prelude.Text.{Text, text_eq, text_eq_iff}
use burnly.CollectSync.TextSet.{contains}
use burnly.Collectors.Protobuf.Metadata.{AntigravityUsageRecord}

abbrev pub ids_of : Option Text → List Text
ids_of none = []
ids_of (some id) = id ∷ []

-- The response ids of the records that have one.
abbrev pub response_ids : List AntigravityUsageRecord → List Text
response_ids [] = []
response_ids (r ∷ rs) = ids_of r.response_id ++ response_ids rs

abbrev pub AreDistinct : List Text → Type 0
AreDistinct [] = Unit
AreDistinct (x ∷ xs) = (contains x xs ≡ false) × AreDistinct xs

pub contains-push :
    (k y : Text) (xs : List Text) → contains k (xs ++ y ∷ []) ≡ (contains k xs || text_eq k y)
contains-push k y [] = ground arith
contains-push k y (x ∷ xs) = ground (arith, contains-push k y xs)

pub distinct-push :
    (y : Text) (xs : List Text)
    → AreDistinct xs
    → contains y xs ≡ false
    → AreDistinct (xs ++ y ∷ [])
distinct-push y [] d c = (refl, tt)
distinct-push y (x ∷ xs) d c = (
  ground (arith, d.0, c, contains-push x y xs, text_eq_iff x y, text_eq_iff y x),
  distinct-push y xs d.1 (ground (arith, c)),
)

pub append-nil : (xs : List Text) → xs ++ [] ≡ xs
append-nil [] = refl
append-nil (x ∷ xs) = ap (λ ys. x ∷ ys) (append-nil xs)

append_assoc : (xs ys zs : List Text) → (xs ++ ys) ++ zs ≡ xs ++ (ys ++ zs)
append_assoc [] ys zs = refl
append_assoc (x ∷ xs) ys zs = ap (λ ws. x ∷ ws) (append_assoc xs ys zs)

pub response_ids-push :
    (rs : List AntigravityUsageRecord) (r : AntigravityUsageRecord)
    → response_ids (rs ++ r ∷ []) ≡ response_ids rs ++ ids_of r.response_id
response_ids-push [] r = append-nil (ids_of r.response_id)
response_ids-push (x ∷ rs) r =
    ap (λ ys. ids_of x.response_id ++ ys) (response_ids-push rs r)
    ∙ sym (append_assoc (ids_of x.response_id) (response_ids rs) (ids_of r.response_id))
