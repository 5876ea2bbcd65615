-- ===== src/Reconciliation/Tables/Lookup.antt =====
-- What the statements on `daily_usage` do to the usage that stands under a key.
use burnly.Prelude.{
  ◌≡◌, refl, Bool, true, false, ◌&&◌, Option, none, some, List, [], ◌∷◌, ◌++◌, map, Result, ok, err,
  arith, if◌then◌else◌, inl, inr, Bool-cases, ap, ◌∙◌,
}
use burnly.Prelude.Text.{Text, text_eq, text_eq_iff}
use burnly.Prelude.Int.{ℤ, same_ℤ}
use burnly.Reconciliation.{UsageStoreError, backend}
use burnly.Reconciliation.Tables.{Tables, DailyUsage, DailyRow, FreshIds, is_daily}
use burnly.Reconciliation.Tables.Statements.{
  change_if, update_daily, find_daily, excluded, insert_or_update, upsert_daily, continue, lift,
}

-- The usage that the table has under a key.
abbrev pub usage_at : ℤ → Text → List DailyRow → Option DailyUsage
usage_at source_id source_key [] = none
usage_at source_id source_key (row ∷ rows) =
    if is_daily source_id source_key row then some row.usage else usage_at source_id source_key rows

abbrev pub map_option : {A B : Type 0} → (A → B) → Option A → Option B
map_option f none = none
map_option f (some a) = some (f a)

pub same_ℤ-eq : (a b : ℤ) → same_ℤ a b ≡ true → a ≡ b
same_ℤ-eq a b h = ground arith

pub is_daily-eq :
    (s : ℤ) (k : Text) (row : DailyRow)
    → is_daily s k row ≡ true
    → (row.source_id ≡ s) × (row.source_key ≡ k)
unfolding is_daily
is_daily-eq s k row h =
    (ground (arith, same_ℤ-eq row.source_id s), ground (arith, text_eq_iff row.source_key k))

is_daily-change :
    (s : ℤ) (k : Text) (chosen : DailyRow → Bool) (change : DailyUsage → DailyUsage)
    (row : DailyRow)
    → is_daily s k (change_if chosen change row) ≡ is_daily s k row
unfolding is_daily
is_daily-change s k chosen change row = elim (Bool-cases (chosen row)) [
  | inl e ↦ rw e refl
  | inr e ↦ rw e refl
]

usage-change :
    (chosen : DailyRow → Bool) (change : DailyUsage → DailyUsage) (row : DailyRow)
    → DailyRow.usage (change_if chosen change row)
      ≡ (if chosen row then change row.usage else row.usage)
usage-change chosen change row = elim (Bool-cases (chosen row)) [
  | inl e ↦ rw e refl
  | inr e ↦ rw e refl
]

-- An UPDATE whose condition is about the key and the usage changes the usage under a key so.
pub usage_at-update :
    (pick : ℤ → Text → DailyUsage → Bool) (change : DailyUsage → DailyUsage) (s : ℤ) (k : Text)
    (rows : List DailyRow)
    → usage_at s k
        (map (change_if (λ row. pick row.source_id row.source_key row.usage) change) rows)
      ≡ map_option (λ u. if pick s k u then change u else u) (usage_at s k rows)
usage_at-update pick change s k [] = refl
usage_at-update pick change s k (row ∷ rows) = elim (Bool-cases (is_daily s k row)) [
  | inl e ↦
      let same = is_daily-eq s k row e in
      rw (is_daily-change s k (λ r. pick r.source_id r.source_key r.usage) change row) (
        rw e (
          ap some (
            usage-change (λ r. pick r.source_id r.source_key r.usage) change row ∙ λ i.
            if pick (same.0 i) (same.1 i) row.usage then change row.usage else row.usage)))
  | inr e ↦
      rw (is_daily-change s k (λ r. pick r.source_id r.source_key r.usage) change row)
        (rw e (usage_at-update pick change s k rows))
]

-- A new row at the end is found under its key if no other is.
pub usage_at-append :
    (s : ℤ) (k : Text) (rows : List DailyRow) (row : DailyRow)
    → usage_at s k (rows ++ row ∷ []) ≡ elim (usage_at s k rows) [
      | some u ↦ some u
      | none ↦ if is_daily s k row then some row.usage else none
    ]
usage_at-append s k [] row = refl
usage_at-append s k (other ∷ rows) row = elim (Bool-cases (is_daily s k other)) [
  | inl e ↦ rw e refl
  | inr e ↦ rw e (usage_at-append s k rows row)
]

pub usage_at-find :
    (s : ℤ) (k : Text) (rows : List DailyRow)
    → usage_at s k rows ≡ map_option (λ row. row.usage) (find_daily s k rows)
usage_at-find s k [] = refl
usage_at-find s k (row ∷ rows) = elim (Bool-cases (is_daily s k row)) [
  | inl e ↦ rw e refl
  | inr e ↦ rw e (usage_at-find s k rows)
]

-- The usage that an upsert leaves under its key.
abbrev pub upserted : DailyUsage → Option DailyUsage → DailyUsage
upserted new none = new
upserted new (some old) = excluded new old

pub update_daily-ok :
    (chosen : DailyRow → Bool) (change : DailyUsage → DailyUsage) (tables tables' : Tables)
    → update_daily chosen change tables ≡ ok (tt, tables')
    → tables'.daily ≡ map (change_if chosen change) tables.daily
unfolding update_daily
update_daily-ok chosen change tables tables' h = ground arith

not_found_else :
    (b : Bool) (new : DailyUsage) (o : Option DailyUsage)
    → b ≡ false
    → elim o [ some u ↦ some u | none ↦ if b then some new else none ] ≡ o
not_found_else b new none e = rw e refl
not_found_else b new (some u) e = refl

map_option_unless :
    (b : Bool) (change : DailyUsage → DailyUsage) (o : Option DailyUsage)
    → b ≡ false
    → map_option (λ u. if b then change u else u) o ≡ o
map_option_unless b change none e = refl
map_option_unless b change (some u) e = rw e refl

map_option_ext :
    (f g : DailyUsage → DailyUsage) (o : Option DailyUsage)
    → ((u : DailyUsage) → f u ≡ g u)
    → map_option f o ≡ map_option g o
map_option_ext f g none h = refl
map_option_ext f g (some u) h = ap some (h u)

key_refl : (row : DailyRow) → is_daily row.source_id row.source_key row ≡ true
unfolding is_daily
key_refl row = ground (arith, text_eq_iff row.source_key row.source_key)

-- The condition of the UPDATE of an upsert.
abbrev is_key : ℤ → Text → ℤ → Text → DailyUsage → Bool
is_key source_id source_key s k _ = same_ℤ s source_id && text_eq k source_key

key_swap :
    (s : ℤ) (k : Text) (row : DailyRow) (u : DailyUsage)
    → is_key row.source_id row.source_key s k u ≡ is_daily s k row
unfolding is_daily
key_swap s k row u = ground (arith, text_eq_iff k row.source_key, text_eq_iff row.source_key k)

-- The same, by the id and the key of the row.
usage_at-excluded :
    (row : DailyRow) (tables tables' : Tables)
    → update_daily (is_daily row.source_id row.source_key) (excluded row.usage) tables
      ≡ ok (tt, tables')
    → (s : ℤ) (k : Text)
    → usage_at s k tables'.daily
      ≡ map_option
          (λ u. if is_daily s k row then excluded row.usage u else u)
          (usage_at s k tables.daily)
unfolding is_daily
usage_at-excluded row tables tables' h s k =
    rw
      (update_daily-ok (is_daily row.source_id row.source_key) (excluded row.usage) tables tables'
        h)
      (usage_at-update (is_key row.source_id row.source_key) (excluded row.usage) s k tables.daily
        ∙ map_option_ext _ _ (usage_at s k tables.daily)
            (λ u. ap (λ b. if b then excluded row.usage u else u) (key_swap s k row u)))

continue-lift :
    (r : Result (Unit × Tables) UsageStoreError) (a id : ℤ) (tables' : Tables)
    → continue r (λ _. lift (ok a)) ≡ ok (id, tables')
    → r ≡ ok (tt, tables')
continue-lift (ok (u, tables)) a id tables' h = ground arith
continue-lift (err e) a id tables' h = cc

module _ (fresh : FreshIds) where
  new-daily :
      (row : DailyRow) (tables tables' : Tables) (id : ℤ)
      → insert_or_update row none tables ≡ ok (id, tables')
      → tables'.daily ≡ tables.daily ++ row ∷ []
  unfolding insert_or_update
  new-daily row tables tables' id h = ground arith

  pub insert_or_update_self :
      (row : DailyRow) (found : Option DailyRow) (tables tables' : Tables) (id : ℤ)
      → find_daily row.source_id row.source_key tables.daily ≡ found
      → insert_or_update row found tables ≡ ok (id, tables')
      → usage_at row.source_id row.source_key tables'.daily
        ≡ some (upserted row.usage (usage_at row.source_id row.source_key tables.daily))
  unfolding insert_or_update
  insert_or_update_self row none tables tables' id f h = rw (new-daily row tables tables' id h) (
      rw (usage_at-append row.source_id row.source_key tables.daily row) (
        rw (usage_at-find row.source_id row.source_key tables.daily)
          (rw f (rw (key_refl row) refl))))
  insert_or_update_self row (some old) tables tables' id f h =
      usage_at-excluded row tables tables' (continue-lift _ old.id id tables' h) row.source_id
        row.source_key
      ∙ rw (usage_at-find row.source_id row.source_key tables.daily) (rw f (rw (key_refl row) refl))

  pub insert_or_update-other :
      (row : DailyRow) (found : Option DailyRow) (tables tables' : Tables) (id : ℤ)
      → insert_or_update row found tables ≡ ok (id, tables')
      → (s : ℤ) (k : Text) → is_daily s k row ≡ false
      → usage_at s k tables'.daily ≡ usage_at s k tables.daily
  unfolding insert_or_update
  insert_or_update-other row none tables tables' id h s k e =
      rw (new-daily row tables tables' id h) (
        rw (usage_at-append s k tables.daily row)
          (not_found_else (is_daily s k row) row.usage (usage_at s k tables.daily) e))
  insert_or_update-other row (some old) tables tables' id h s k e =
      usage_at-excluded row tables tables' (continue-lift _ old.id id tables' h) s k
      ∙ map_option_unless (is_daily s k row) (excluded row.usage) (usage_at s k tables.daily) e

  unless_refused :
      (b : Bool) (r : Result (ℤ × Tables) UsageStoreError) {x : ℤ × Tables}
      → (if b then r else err backend) ≡ ok x
      → r ≡ ok x
  unless_refused true r h = h
  unless_refused false r h = cc

  -- The usage under the key of an upsert.
  pub upsert_daily_self :
      (s : ℤ) (k : Text) (new : DailyUsage) (tables tables' : Tables) (id : ℤ)
      → upsert_daily fresh s k new tables ≡ ok (id, tables')
      → usage_at s k tables'.daily ≡ some (upserted new (usage_at s k tables.daily))
  unfolding upsert_daily
  upsert_daily_self s k new tables tables' id h =
      insert_or_update_self
        (record { id = fresh.of_daily tables.daily; source_id = s; source_key = k; usage = new })
        (find_daily s k tables.daily) tables tables' id refl (unless_refused _ _ h)

  -- An upsert leaves what stands under the other keys.
  pub upsert_daily-other :
      (s : ℤ) (k : Text) (new : DailyUsage) (tables tables' : Tables) (id : ℤ)
      → upsert_daily fresh s k new tables ≡ ok (id, tables')
      → (s' : ℤ) (k' : Text) → (same_ℤ s s' && text_eq k k') ≡ false
      → usage_at s' k' tables'.daily ≡ usage_at s' k' tables.daily
  unfolding upsert_daily is_daily
  upsert_daily-other s k new tables tables' id h s' k' e =
      insert_or_update-other
        (record { id = fresh.of_daily tables.daily; source_id = s; source_key = k; usage = new })
        (find_daily s k tables.daily) tables tables' id (unless_refused _ _ h) s' k' e

-- A successful bind of a transaction.
pub continue-eq-ok :
    {A B : Type 0} (r : Result (A × Tables) UsageStoreError)
    (f : A → Tables → Result (B × Tables) UsageStoreError) {x : B × Tables}
    → continue r f ≡ ok x
    → (a : A) × (tables : Tables) × (r ≡ ok (a, tables)) × (f a tables ≡ ok x)
continue-eq-ok (ok (a, tables)) f h = (a, tables, refl, h)
continue-eq-ok (err e) f h = cc

pub lift-eq-ok :
    {A B : Type 0} (r : Result A UsageStoreError) (tables : Tables)
    (f : A → Tables → Result (B × Tables) UsageStoreError) {x : B × Tables}
    → continue (lift r tables) f ≡ ok x
    → (a : A) × (r ≡ ok a) × (f a tables ≡ ok x)
lift-eq-ok (ok a) tables f h = (a, refl, h)
lift-eq-ok (err e) tables f h = cc
