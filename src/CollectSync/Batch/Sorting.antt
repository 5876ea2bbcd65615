-- ===== src/CollectSync/Batch/Sorting.antt =====
-- The order of the facts of `build_prepared_batches`, and the window of a batch.
use mathlib.Core.List.{Perm}
use burnly.Prelude.{◌≡◌, inl, inr, true, false, List, [], ◌∷◌, In, arith}
use burnly.Prelude.Text.{Text}
use burnly.Prelude.TextOrder.{
  text_le, text_le_refl, text_le_trans, text_compare-eq, text_compare-flip, text_compare-lt_trans,
  text_compare_refl,
}
use burnly.Prelude.Sort.{IsOrdered, sort_by-IsOrdered, sort_by-perm}
use burnly.CollectSync.Wire.{DailyUsageFactDto}
use burnly.CollectSync.Batch.{fact_le, sort_facts, earlier, later, min_date, max_date}

-- Every fact is not after any that follows it.
abbrev pub IsSorted : List DailyUsageFactDto → Type 0
IsSorted facts = IsOrdered fact_le facts

fact_le-total : (x y : DailyUsageFactDto) → fact_le x y ≡ false → fact_le y x ≡ true
fact_le-total x y h = ground (
  arith,
  text_compare-flip x.usage_date y.usage_date,
  text_compare-flip x.identity_key y.identity_key,
)

fact_le_trans :
    (x y z : DailyUsageFactDto) → fact_le x y ≡ true → fact_le y z ≡ true → fact_le x z ≡ true
fact_le_trans x y z h k = ground (
  arith,
  text_compare-lt_trans x.usage_date y.usage_date z.usage_date,
  text_compare-eq x.usage_date y.usage_date,
  text_compare-eq y.usage_date z.usage_date,
  text_le_trans x.identity_key y.identity_key z.identity_key,
)

-- The sorted facts are in order of date, and of identity key within a date.
pub sort_facts-IsSorted : (facts : List DailyUsageFactDto) → IsSorted (sort_facts facts)
unfolding sort_facts
sort_facts-IsSorted facts = sort_by-IsOrdered fact_le fact_le-total fact_le_trans facts

-- Sorting only reorders.
pub sort_facts-perm : (facts : List DailyUsageFactDto) → Perm (sort_facts facts) facts
unfolding sort_facts
sort_facts-perm facts = sort_by-perm fact_le facts

-- The dates between two dates.
abbrev pub Within : Text → Text → DailyUsageFactDto → Type 0
Within start end fact =
    (text_le start fact.usage_date ≡ true) × (text_le fact.usage_date end ≡ true)

earlier-le : (s t : Text) → (text_le (earlier s t) s ≡ true) × (text_le (earlier s t) t ≡ true)
earlier-le s t = ground (arith, text_compare-flip t s, text_compare_refl s, text_compare_refl t)

later-le : (s t : Text) → (text_le s (later s t) ≡ true) × (text_le t (later s t) ≡ true)
later-le s t = ground (arith, text_compare-flip t s, text_compare_refl s, text_compare_refl t)

-- Every date of a chunk lies in the window that is computed for it.
pub window-Within :
    (chunk : List DailyUsageFactDto) (fact : DailyUsageFactDto)
    → In fact chunk
    → Within (min_date chunk) (max_date chunk) fact
unfolding min_date max_date
window-Within [] fact i = absurd i
window-Within (x ∷ []) fact (inl e) = rw e (text_le_refl x.usage_date, text_le_refl x.usage_date)
window-Within (x ∷ []) fact (inr i) = absurd i
window-Within (x ∷ y ∷ ys) fact (inl e) =
    rw e (
      (earlier-le x.usage_date (min_date (y ∷ ys))).0,
      (later-le x.usage_date (max_date (y ∷ ys))).0,
    )
window-Within (x ∷ y ∷ ys) fact (inr i) =
    let ih = window-Within (y ∷ ys) fact i in
    (
      text_le_trans _ (min_date (y ∷ ys)) _ (earlier-le x.usage_date (min_date (y ∷ ys))).1 ih.0,
      text_le_trans _ (max_date (y ∷ ys)) _ ih.1 (later-le x.usage_date (max_date (y ∷ ys))).1,
    )
