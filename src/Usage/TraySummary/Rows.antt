-- ===== src/Usage/TraySummary/Rows.antt =====
-- The order and the contents of the rows of the tray summary.
use Prim.Native.Nat.{compare, Ordering}
use mathlib.Core.List.{Perm}
use mathlib.Core.Path.{subst}
use burnly.Domain.Source.{SourceKey, same_source}
use burnly.Prelude.Int.{ℤ}
use burnly.Prelude.{
  ℕ, ◌<◌, ◌⊎◌, All, sym, Bool, ◌≡◌, refl, true, false, List, [], ◌∷◌, map, arith, Option, none,
  some, ◌&&◌, if◌then◌else◌,
}
use burnly.Prelude.Text.{Text, text_eq, text_compare}
use burnly.Prelude.TextOrder.{
  text_le, text_le_trans, text_le-total, text_compare-eq, text_compare-flip, text_compare-lt_trans,
}
use burnly.Prelude.Sort.{sort_by, sort_by-perm, sort_by-IsOrdered, IsOrdered}
use burnly.Usage.TraySummary.{
  TraySummaryStoreModelUsage, TraySummaryModelRow, TraySummaryStoreResult, TraySummaryScope,
  model_row, model_rows, usage_le, source_label, by_model, read_model, tokens_of, trend_since,
  trend,
}

usage_le-total : (x y : TraySummaryStoreModelUsage) → usage_le x y ≡ false → usage_le y x ≡ true
usage_le-total x y h = ground (
  arith,
  text_compare-flip x.model_name y.model_name,
  text_le-total (source_label x.source) (source_label y.source),
)

-- The names and the labels are in order.
abbrev named_le : (name label name' label' : Text) → Bool
named_le name label name' label' = elim (text_compare name name') [
  | Ordering.lt ↦ true
  | Ordering.gt ↦ false
  | Ordering.eq ↦ text_le label label'
]

named_le_trans :
    (s k t l u m : Text)
    → named_le s k t l ≡ true
    → named_le t l u m ≡ true
    → named_le s k u m ≡ true
named_le_trans s k t l u m h h' = ground (
  arith,
  text_compare-lt_trans s t u,
  text_compare-eq s t,
  text_compare-eq t u,
  text_le_trans k l m,
)

-- The names and the labels of two models are in order.
abbrev models_le : TraySummaryStoreModelUsage → TraySummaryStoreModelUsage → Bool
models_le x y = named_le x.model_name (source_label x.source) y.model_name (source_label y.source)

abbrev by_tokens : Ordering → Bool → Bool
by_tokens order named = elim order [
  | Ordering.lt ↦ true
  | Ordering.gt ↦ false
  | Ordering.eq ↦ named
]

by_tokens_trans :
    (a b c : ℕ) (p q r : Bool)
    → (p ≡ true → q ≡ true → r ≡ true)
    → by_tokens (compare b a) p ≡ true
    → by_tokens (compare c b) q ≡ true
    → by_tokens (compare c a) r ≡ true
by_tokens_trans a b c p q r named h k = ground arith

usage_le_trans :
    (x y z : TraySummaryStoreModelUsage)
    → usage_le x y ≡ true
    → usage_le y z ≡ true
    → usage_le x z ≡ true
usage_le_trans x y z h k =
    by_tokens_trans x.total_tokens y.total_tokens z.total_tokens (models_le x y) (models_le y z)
      (models_le x z)
      (named_le_trans x.model_name (source_label x.source) y.model_name (source_label y.source)
        z.model_name (source_label z.source))
      h k

-- The tokens of the last of the models that has this name and this source.
abbrev pub last_tokens : Text → SourceKey → List TraySummaryStoreModelUsage → Option ℕ
last_tokens name source [] = none
last_tokens name source (model ∷ models) = elim (last_tokens name source models) [
  | some tokens ↦ some tokens
  | none ↦
      if text_eq model.model_name name && same_source model.source source
      then some model.total_tokens
      else none
]

abbrev or_else : Option ℕ → Option ℕ → Option ℕ
or_else (some tokens) _ = some tokens
or_else none other = other

tokens_of-step :
    (name : Text) (source : SourceKey) (model : TraySummaryStoreModelUsage)
    (entries models : List TraySummaryStoreModelUsage)
    → or_else (last_tokens name source models) (tokens_of name source (model ∷ entries))
      ≡ or_else (last_tokens name source (model ∷ models)) (tokens_of name source entries)
unfolding tokens_of
tokens_of-step name source model entries models = ground arith

tokens_of-by_model :
    (name : Text) (source : SourceKey) (entries models : List TraySummaryStoreModelUsage)
    → tokens_of name source (by_model entries models)
      ≡ or_else (last_tokens name source models) (tokens_of name source entries)
unfolding by_model
tokens_of-by_model name source entries [] = refl
tokens_of-by_model name source entries (model ∷ models) =
    rw (tokens_of-by_model name source (model ∷ entries) models)
      (tokens_of-step name source model entries models)

or_else-none : (o : Option ℕ) → or_else o none ≡ o
or_else-none (some n) = refl
or_else-none none = refl

-- The row of a model of today: it has no trend if no model of yesterday has its name and source, and
-- else the one since the last of those.
abbrev pub row_since :
    List TraySummaryStoreModelUsage → TraySummaryStoreModelUsage → TraySummaryModelRow
row_since yesterday_models model = record {
  model_name = model.model_name;
  agent_label = source_label model.source;
  total_tokens = model.total_tokens;
  trend = elim (last_tokens model.model_name model.source yesterday_models) [
    | none ↦ none
    | some yesterday ↦ trend model.total_tokens yesterday
  ];
}

trend_since-elim :
    (today : ℕ) (o : Option ℕ)
    → trend_since today o ≡ elim o [ none ↦ none | some yesterday ↦ trend today yesterday ]
trend_since-elim today none = refl
trend_since-elim today (some yesterday) = refl

model_row-row_since :
    (models : List TraySummaryStoreModelUsage) (model : TraySummaryStoreModelUsage)
    → model_row (by_model [] models) model ≡ row_since models model
unfolding model_row tokens_of
model_row-row_since models model = rw (tokens_of-by_model model.model_name model.source [] models) (
    rw (or_else-none (last_tokens model.model_name model.source models)) (
      rw (trend_since-elim model.total_tokens (last_tokens model.model_name model.source models))
        refl))

rows-row_since :
    (yesterday_models models : List TraySummaryStoreModelUsage)
    → map (model_row (by_model [] yesterday_models)) models
      ≡ map (row_since yesterday_models) models
rows-row_since yesterday_models [] = refl
rows-row_since yesterday_models (model ∷ models) =
    rw (model_row-row_since yesterday_models model)
      (rw (rows-row_since yesterday_models models) refl)

-- The first row goes before the second: it has more tokens; or as many, and a smaller name; or as
-- many and the same name, and no greater label.
abbrev pub IsBefore : TraySummaryModelRow → TraySummaryModelRow → Type 0
IsBefore r q =
    (q.total_tokens < r.total_tokens)
    ⊎ ((r.total_tokens ≡ q.total_tokens)
        × ((text_compare r.model_name q.model_name ≡ Ordering.lt)
            ⊎ ((r.model_name ≡ q.model_name) × (text_le r.agent_label q.agent_label ≡ true))))

-- Every row goes before all that follow it.
abbrev pub AreSorted : List TraySummaryModelRow → Type 0
AreSorted [] = Unit
AreSorted (row ∷ rows) = All (IsBefore row) rows × AreSorted rows

usage_le-IsBefore :
    (yesterday_models : List TraySummaryStoreModelUsage) (x y : TraySummaryStoreModelUsage)
    → usage_le x y ≡ true
    → IsBefore (row_since yesterday_models x) (row_since yesterday_models y)
usage_le-IsBefore yesterday_models x y h = ground (arith, text_compare-eq x.model_name y.model_name)

All-IsBefore :
    (yesterday_models models : List TraySummaryStoreModelUsage) (x : TraySummaryStoreModelUsage)
    → All (λ y. usage_le x y ≡ true) models
    → All (IsBefore (row_since yesterday_models x)) (map (row_since yesterday_models) models)
All-IsBefore yesterday_models [] x h = tt
All-IsBefore yesterday_models (y ∷ models) x (h, hs) =
    (usage_le-IsBefore yesterday_models x y h, All-IsBefore yesterday_models models x hs)

rows-AreSorted :
    (yesterday_models models : List TraySummaryStoreModelUsage)
    → IsOrdered usage_le models
    → AreSorted (map (row_since yesterday_models) models)
rows-AreSorted yesterday_models [] h = tt
rows-AreSorted yesterday_models (x ∷ models) (h, hs) =
    (All-IsBefore yesterday_models models x h, rows-AreSorted yesterday_models models hs)

-- The rows of the summary are in order of falling tokens, then of name, then of label. They are the
-- rows of all models of today, each with the name, the tokens and the code's label of its source,
-- and with the trend since the last entry of its name and source among the models of yesterday, or
-- no trend if there is none.
pub read_model-rows :
    (scope : TraySummaryScope) (result : TraySummaryStoreResult) (as_of_ms : ℤ)
    → (sorted : List TraySummaryStoreModelUsage) × Perm sorted result.today_models
      × AreSorted (read_model scope result as_of_ms).models
      × ((read_model scope result as_of_ms).models ≡ map (row_since result.yesterday_models) sorted)
unfolding read_model model_rows
read_model-rows scope result as_of_ms =
    let sorted = sort_by usage_le result.today_models in
    let rows = rows-row_since result.yesterday_models sorted in
    (
      sorted,
      sort_by-perm usage_le result.today_models,
      subst AreSorted (sym rows) (
          rows-AreSorted result.yesterday_models sorted
            (sort_by-IsOrdered usage_le usage_le-total usage_le_trans result.today_models)),
      rows,
    )
