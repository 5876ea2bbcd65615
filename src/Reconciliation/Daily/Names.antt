-- ===== src/Reconciliation/Daily/Names.antt =====
-- The ids of the models are primary keys, so each names one model.
use burnly.Prelude.{
  ◌≡◌, refl, true, false, some, List, [], ◌∷◌, ◌++◌, map, arith, All, sym, ◌∙◌, inl, inr,
  Bool-cases,
}
use burnly.Prelude.Text.{Text, text_eq_iff}
use burnly.Prelude.Int.{ℤ, same_ℤ}
use burnly.Reconciliation.Tables.{ModelRow, is_model}
use burnly.Reconciliation.Tables.Statements.{touched}
use burnly.Reconciliation.Daily.Models.{model_id, model_id-append, touched-id}

-- No row has this id.
abbrev pub IsUnused : ℤ → List ModelRow → Type 0
IsUnused id rows = All (λ other. same_ℤ (ModelRow.id other) id ≡ false) rows

abbrev pub AreUnshared : List ModelRow → Type 0
AreUnshared [] = Unit
AreUnshared (row ∷ rows) = IsUnused row.id rows × AreUnshared rows

IsUnused-append :
    (id : ℤ) (rows : List ModelRow) (row : ModelRow)
    → IsUnused id rows
    → same_ℤ row.id id ≡ false
    → IsUnused id (rows ++ row ∷ [])
IsUnused-append id [] row h e = (e, tt)
IsUnused-append id (other ∷ rows) row (a, h) e = (a, IsUnused-append id rows row h e)

pub unshared_append :
    (rows : List ModelRow) (row : ModelRow)
    → AreUnshared rows
    → IsUnused row.id rows
    → AreUnshared (rows ++ row ∷ [])
unshared_append [] row h u = (tt, tt)
unshared_append (other ∷ rows) row (a, h) (e, u) =
    let apart : same_ℤ row.id other.id ≡ false = ground arith in
    (IsUnused-append other.id rows row a apart, unshared_append rows row h u)

IsUnused-touched :
    (s : ℤ) (raw : Text) (now id : ℤ) (rows : List ModelRow)
    → IsUnused id rows
    → IsUnused id (map (touched s raw now) rows)
IsUnused-touched s raw now id [] h = tt
IsUnused-touched s raw now id (row ∷ rows) (a, h) =
    (rw ((touched-id s raw now row).0) a, IsUnused-touched s raw now id rows h)

pub unshared_touched :
    (s : ℤ) (raw : Text) (now : ℤ) (rows : List ModelRow)
    → AreUnshared rows
    → AreUnshared (map (touched s raw now) rows)
unshared_touched s raw now [] h = tt
unshared_touched s raw now (row ∷ rows) (a, h) = (
  rw ((touched-id s raw now row).0) (IsUnused-touched s raw now row.id rows a),
  unshared_touched s raw now rows h,
)

is_model-raw :
    (s : ℤ) (raw : Text) (row : ModelRow) → is_model s raw row ≡ true → row.raw_model_id ≡ raw
unfolding is_model
is_model-raw s raw row h = ground (arith, text_eq_iff row.raw_model_id raw)

known_is_used :
    (s : ℤ) (raw : Text) (id : ℤ) (rows : List ModelRow)
    → model_id s raw rows ≡ some id
    → IsUnused id rows
    → true ≡ false
known_is_used s raw id [] h u = cc
known_is_used s raw id (row ∷ rows) h (e, u) = elim (Bool-cases (is_model s raw row)) [
  | inl m ↦
      let found : some row.id ≡ some id = rw m at h in
      let same : row.id ≡ id = ground arith in ground arith
  | inr m ↦ known_is_used s raw id rows (rw m at h) u
]

-- Two names with one id are the same.
pub model_id_inj :
    (s : ℤ) (raw raw' : Text) (id : ℤ) (rows : List ModelRow)
    → AreUnshared rows
    → model_id s raw rows ≡ some id
    → model_id s raw' rows ≡ some id
    → raw ≡ raw'
model_id_inj s raw raw' id [] u h k = cc
model_id_inj s raw raw' id (row ∷ rows) (a, u) h k = elim (Bool-cases (is_model s raw row)) [
  | inl m ↦ elim (Bool-cases (is_model s raw' row)) [
    | inl n ↦ sym (is_model-raw s raw row m) ∙ is_model-raw s raw' row n
    | inr n ↦
        let found : some row.id ≡ some id = rw m at h in
        let same : id ≡ row.id = ground arith in
        let used = known_is_used s raw' row.id rows (rw (same, n) at k) a in cc
  ]
  | inr m ↦ elim (Bool-cases (is_model s raw' row)) [
    | inl n ↦
        let found : some row.id ≡ some id = rw n at k in
        let same : id ≡ row.id = ground arith in
        let used = known_is_used s raw row.id rows (rw (same, m) at h) a in cc
    | inr n ↦ model_id_inj s raw raw' id rows u (rw m at h) (rw n at k)
  ]
]

-- What is known stays known.
pub known-append :
    (s : ℤ) (raw : Text) (id : ℤ) (rows : List ModelRow) (row : ModelRow)
    → model_id s raw rows ≡ some id
    → model_id s raw (rows ++ row ∷ []) ≡ some id
known-append s raw id rows row h = model_id-append s raw rows row ∙ rw h refl
