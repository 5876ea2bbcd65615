-- ===== src/Reconciliation/Daily/Models.antt =====
-- When the model breakdowns of a day are stored.
use burnly.Prelude.{
  ◌≡◌, refl, Bool, true, ◌&&◌, Option, none, some, List, [], ◌∷◌, ◌++◌, map, any, arith,
  if◌then◌else◌, inl, inr, Bool-cases,
}
use burnly.Prelude.Text.{Text, text_eq}
use burnly.Prelude.Int.{ℤ, same_ℤ}
use burnly.Reconciliation.Tables.{ModelRow, is_model, model_checks}
use burnly.Reconciliation.Tables.Statements.{find_model, seen_at, touched}
use burnly.Reconciliation.Daily.Ready.{and_true}
use burnly.Reconciliation.Daily.Rows.{or_left, or_right, same_ℤ_self}

-- The id under which a model is known.
abbrev pub model_id : ℤ → Text → List ModelRow → Option ℤ
model_id s raw [] = none
model_id s raw (row ∷ rows) = if is_model s raw row then some row.id else model_id s raw rows

-- The row passes its CHECK clauses when it is seen at `now`.
abbrev pub CanBeSeen : ℤ → ModelRow → Type 0
CanBeSeen now row = model_checks (seen_at now row) ≡ true

abbrev pub refers_to_model : ℤ → ℤ → List ModelRow → Bool
refers_to_model id s = any (λ model. same_ℤ model.id id && same_ℤ model.source_id s)

pub touched-id :
    (s : ℤ) (raw : Text) (now : ℤ) (row : ModelRow)
    → (ModelRow.id (touched s raw now row) ≡ row.id)
      × (ModelRow.source_id (touched s raw now row) ≡ row.source_id)
      × (ModelRow.raw_model_id (touched s raw now row) ≡ row.raw_model_id)
touched-id s raw now row = elim (Bool-cases (is_model s raw row)) [
  | inl e ↦ (rw e refl, rw e refl, rw e refl)
  | inr e ↦ (rw e refl, rw e refl, rw e refl)
]

is_model-touched :
    (s : ℤ) (raw : Text) (now s' : ℤ) (raw' : Text) (row : ModelRow)
    → is_model s' raw' (touched s raw now row) ≡ is_model s' raw' row
unfolding is_model
is_model-touched s raw now s' raw' row =
    let (_, e, f) = touched-id s raw now row in λ j. same_ℤ (e j) s' && text_eq (f j) raw'

pub model_id-touched :
    (s : ℤ) (raw : Text) (now s' : ℤ) (raw' : Text) (rows : List ModelRow)
    → model_id s' raw' (map (touched s raw now) rows) ≡ model_id s' raw' rows
model_id-touched s raw now s' raw' [] = refl
model_id-touched s raw now s' raw' (row ∷ rows) = λ j.
    if is_model-touched s raw now s' raw' row j
    then some ((touched-id s raw now row).0 j)
    else model_id-touched s raw now s' raw' rows j

pub model_id-append :
    (s : ℤ) (raw : Text) (rows : List ModelRow) (row : ModelRow)
    → model_id s raw (rows ++ row ∷ []) ≡ elim (model_id s raw rows) [
      | some id ↦ some id
      | none ↦ if is_model s raw row then some row.id else none
    ]
model_id-append s raw [] row = refl
model_id-append s raw (other ∷ rows) row = elim (Bool-cases (is_model s raw other)) [
  | inl e ↦ rw e refl
  | inr e ↦ rw e (model_id-append s raw rows row)
]

pub model_id-find :
    (s : ℤ) (raw : Text) (rows : List ModelRow) (found : Option ModelRow)
    → find_model s raw rows ≡ found
    → model_id s raw rows ≡ elim found [ none ↦ none | some row ↦ some row.id ]
model_id-find s raw [] found h = rw (← h) refl
model_id-find s raw (row ∷ rows) found h = elim (Bool-cases (is_model s raw row)) [
  | inl e ↦ rw (← h) (rw e refl)
  | inr e ↦ rw e (model_id-find s raw rows found (rw e at h))
]

is_model-source :
    (s : ℤ) (raw : Text) (row : ModelRow)
    → is_model s raw row ≡ true
    → same_ℤ row.source_id s ≡ true
unfolding is_model
is_model-source s raw row h = ground arith

-- A known id is the id of a row of the source.
pub model_id-refers :
    (s : ℤ) (raw : Text) (rows : List ModelRow) (id : ℤ)
    → model_id s raw rows ≡ some id
    → refers_to_model id s rows ≡ true
model_id-refers s raw [] id h = cc
model_id-refers s raw (row ∷ rows) id h = elim (Bool-cases (is_model s raw row)) [
  | inl e ↦
      let found : some row.id ≡ some id = rw e at h in
      let same : row.id ≡ id = ground arith in
      or_left (same_ℤ row.id id && same_ℤ row.source_id s) (refers_to_model id s rows) (
        and_true {a = same_ℤ row.id id} {b = same_ℤ row.source_id s} (rw same (same_ℤ_self id))
          (is_model-source s raw row e))
  | inr e ↦ or_right _ _ (model_id-refers s raw rows id (rw e at h))
]
