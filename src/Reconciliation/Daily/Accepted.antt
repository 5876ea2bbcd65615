-- ===== src/Reconciliation/Daily/Accepted.antt =====
-- When the values of a candidate and the rows that the statements change pass the CHECK clauses.
use burnly.Prelude.{
  ℕ, ◌≡◌, ◌≤◌, refl, Bool, true, false, ◌&&◌, ◌||◌, ◌==◌, Option, none, some, [], ◌∷◌, all, any, ok,
  arith, i64_max, length,
}
use burnly.Prelude.Text.{Text, text, text_eq}
use burnly.Domain.TokenUsage.{TokenUsage}
use burnly.Domain.Cost.{
  CostKind, ValuedCostStatus, available, estimated, UsageCost, valued, not_applicable, unavailable,
  is_ascii_uppercase,
}
use burnly.Reconciliation.{
  TokenColumns, DailyCostColumns, ModelCostColumns, token_columns, token_value, optional_token,
  daily_cost_columns, model_cost_columns, cost_kind_value, valued_status_value,
}
use burnly.Reconciliation.Tables.{cost_checks}

-- The tokens, and the amount and the currency of a cost, fit in their columns.
abbrev Fits : Option ℕ → Type 0
Fits none = Unit
Fits (some n) = n ≤ i64_max

abbrev pub TokensFit : TokenUsage → Type 0
TokensFit tokens =
    Fits tokens.input_tokens
    × Fits tokens.output_tokens
    × Fits tokens.cache_creation_tokens
    × Fits tokens.cache_read_tokens
    × (tokens.total_tokens ≤ i64_max)
    × Fits tokens.unclassified_tokens

abbrev pub CostFits : UsageCost → Type 0
CostFits (valued amount currency _ _) =
    (amount ≤ i64_max)
    × ((length currency.value == 3 && all is_ascii_uppercase currency.value) ≡ true)
CostFits (not_applicable _) = Unit
CostFits (unavailable _) = Unit

token_value-fits : (n : ℕ) → n ≤ i64_max → token_value n ≡ ok n
unfolding token_value
token_value-fits n h = ground arith

optional_token-Fits : (o : Option ℕ) → Fits o → optional_token o ≡ ok o
unfolding optional_token
optional_token-Fits none h = refl
optional_token-Fits (some n) h = rw (token_value-fits n h) refl

pub token_columns-fits :
    (tokens : TokenUsage)
    → TokensFit tokens
    → (columns : TokenColumns) × (token_columns tokens ≡ ok columns)
unfolding token_columns
token_columns-fits tokens (i, o, c, r, t, u) = (
  record {
    input = tokens.input_tokens;
    output = tokens.output_tokens;
    cache_creation = tokens.cache_creation_tokens;
    cache_read = tokens.cache_read_tokens;
    total = tokens.total_tokens;
    unclassified = tokens.unclassified_tokens;
  },
  rw (optional_token-Fits tokens.input_tokens i) (
      rw (optional_token-Fits tokens.output_tokens o) (
        rw (optional_token-Fits tokens.cache_creation_tokens c) (
          rw (optional_token-Fits tokens.cache_read_tokens r) (
            rw (token_value-fits tokens.total_tokens t)
              (rw (optional_token-Fits tokens.unclassified_tokens u) refl))))),
)

abbrev pub status_passes : DailyCostColumns → Bool
status_passes cost =
    cost_checks (text "available" ∷ text "estimated" ∷ [])
      (text "not_applicable" ∷ text "unavailable" ∷ []) cost.status cost.amount_micros cost.currency

abbrev pub is_kind : Text → Bool
is_kind kind = any (text_eq kind) (
    text "source_reported"
    ∷ text "collector_calculated"
    ∷ text "collector_mixed"
    ∷ text "burnly_calculated"
    ∷ text "unknown"
    ∷ [])

kind_passes : (kind : CostKind) → is_kind (cost_kind_value kind) ≡ true
kind_passes CostKind.source_reported = refl
kind_passes CostKind.collector_calculated = refl
kind_passes CostKind.collector_mixed = refl
kind_passes CostKind.burnly_calculated = refl
kind_passes CostKind.unknown = refl

valued_passes :
    (status : ValuedCostStatus) (b : Bool)
    → b ≡ true
    → (b
        && ((any (text_eq (valued_status_value status)) (text "available" ∷ text "estimated" ∷ [])
              && true
              && true)
            || (any
                  (text_eq (valued_status_value status))
                  (text "not_applicable" ∷ text "unavailable" ∷ [])
                && false
                && false)))
      ≡ true
valued_passes available b h = rw h refl
valued_passes estimated b h = rw h refl

pub daily_cost-fits :
    (cost : UsageCost)
    → CostFits cost
    → (columns : DailyCostColumns) × (daily_cost_columns cost ≡ ok columns)
      × (status_passes columns ≡ true)
      × (is_kind columns.kind ≡ true)
unfolding daily_cost_columns
daily_cost-fits (valued amount currency kind status) (a, c) = (
  record {
    amount_micros = some amount;
    currency = some currency.value;
    kind = cost_kind_value kind;
    status = valued_status_value status;
  },
  rw (token_value-fits amount a) refl,
  valued_passes status _ c,
  kind_passes kind,
)
daily_cost-fits (not_applicable kind) h = (_, refl, refl, kind_passes kind)
daily_cost-fits (unavailable kind) h = (_, refl, refl, kind_passes kind)

pub model_cost-fits :
    (cost : UsageCost)
    → CostFits cost
    → (columns : ModelCostColumns) × (model_cost_columns cost ≡ ok columns)
      × (cost_checks
            (text "estimated" ∷ [])
            (text "unavailable" ∷ [])
            columns.status
            columns.amount_micros
            columns.currency
          ≡ true)
unfolding model_cost_columns
model_cost-fits (valued amount currency kind status) (a, c) = (
  record { amount_micros = some amount; currency = some currency.value; status = text "estimated" },
  rw (token_value-fits amount a) refl,
  rw c refl,
)
model_cost-fits (not_applicable kind) h = (_, refl, refl)
model_cost-fits (unavailable kind) h = (_, refl, refl)
