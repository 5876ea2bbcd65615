-- ===== src/Reconciliation/Daily/Rows.antt =====
-- When the upsert of a day and the absence step succeed.
use mathlib.Core.Path.{subst}
use burnly.Prelude.{
  ◌≡◌, refl, Bool, true, false, ◌&&◌, ◌||◌, not, Option, none, some, List, [], ◌∷◌, ◌++◌, map, all,
  any, ok, arith, All, All-append, ap, sym, ◌∙◌, inl, inr, Bool-cases,
}
use burnly.Prelude.Text.{Text}
use burnly.Prelude.Int.{ℤ, same_ℤ, leb_ℤ}
use burnly.Refresh.Runs.{SourceId, ImportRunId}
use burnly.Reconciliation.Tables.{
  Tables, DailyUsage, DailyRow, FreshIds, RecordState, is_daily, daily_checks, content_checks,
  life_checks, refers_to_source, refers_to_import, active, missing, removed,
}
use burnly.Reconciliation.Tables.Statements.{
  change_if, update_daily, find_daily, excluded, insert_or_update, upsert_daily,
}
use burnly.Reconciliation.Tables.Lookup.{is_daily-eq}
use burnly.Reconciliation.Daily.{advance_absences, remove_at, miss, is_absent, is_state}
use burnly.Reconciliation.Daily.Ready.{
  IsReady, and_true, excluded_passes, remove_at_passes, miss_passes,
}

module _ (now : ℤ) where
  -- An UPDATE that keeps the rows it picks ready succeeds, and keeps all rows ready.
  all-IsReady :
      (chosen : DailyRow → Bool) (change : DailyUsage → DailyUsage) (rows : List DailyRow)
      → ((row : DailyRow)
          → IsReady now row
          → chosen row ≡ true
          → IsReady now (record row { usage = change row.usage }))
      → All (IsReady now) rows
      → (all (λ row. not (chosen row) || daily_checks (change_if chosen change row)) rows ≡ true)
        × All (IsReady now) (map (change_if chosen change) rows)
  all-IsReady chosen change [] keeps h = (refl, tt)
  all-IsReady chosen change (row ∷ rows) keeps (r, h) =
      let (passes, ready) = all-IsReady chosen change rows keeps h in
      elim (Bool-cases (chosen row)) [
        | inl e ↦ let kept = keeps row r e in (rw e (and_true kept.0 passes), rw e (kept, ready))
        | inr e ↦ (rw e passes, rw e (r, ready))
      ]

  pub update_daily_succeeds :
      (chosen : DailyRow → Bool) (change : DailyUsage → DailyUsage) (tables : Tables)
      → ((row : DailyRow)
          → IsReady now row
          → chosen row ≡ true
          → IsReady now (record row { usage = change row.usage }))
      → All (IsReady now) tables.daily
      → (update_daily chosen change tables
          ≡ ok (tt, record tables { daily = map (change_if chosen change) tables.daily }))
        × All (IsReady now) (map (change_if chosen change) tables.daily)
  unfolding update_daily
  update_daily_succeeds chosen change tables keeps h =
      let (passes, ready) = all-IsReady chosen change tables.daily keeps h in
      (rw passes refl, ready)

  is_state-eq : (a b : RecordState) → is_state a b ≡ true → a ≡ b
  is_state-eq active active h = refl
  is_state-eq missing missing h = refl
  is_state-eq removed removed h = refl
  is_state-eq active missing h = cc
  is_state-eq active removed h = cc
  is_state-eq missing active h = cc
  is_state-eq missing removed h = cc
  is_state-eq removed active h = cc
  is_state-eq removed missing h = cc

  last_true : (a b c : Bool) → (a && b && c) ≡ true → c ≡ true
  last_true true true c h = h
  last_true true false c h = cc
  last_true false b c h = cc

  state_of :
      (s : SourceId) (i : ImportRunId) (row : DailyRow) (state : RecordState)
      → is_absent s i state row ≡ true
      → row.usage.record_state ≡ state
  state_of s i row state h = is_state-eq row.usage.record_state state (
      last_true (same_ℤ row.source_id s.value) (not (same_ℤ row.usage.latest_import_id i.value)) _
        h)

  pub advance_absences_succeeds :
      (s : SourceId) (i : ImportRunId) (tables : Tables)
      → All (IsReady now) tables.daily
      → (tables' : Tables) × (advance_absences s i now tables ≡ ok (tt, tables'))
  unfolding advance_absences
  advance_absences_succeeds s i tables h =
      let swept : Tables = record tables {
        daily = map (change_if (is_absent s i missing) (remove_at now)) tables.daily;
      } in
      let (done, ready) =
        update_daily_succeeds (is_absent s i missing) (remove_at now) tables
          (λ row r e. (remove_at_passes row now (state_of s i row missing e) r, r.1)) h in
      let (done', _) =
        update_daily_succeeds (is_absent s i active) miss swept
          (λ row r e. (miss_passes row (state_of s i row active e) r.0, r.1)) ready in
      (
        record swept { daily = map (change_if (is_absent s i active) miss) swept.daily },
        rw done done',
      )

-- A row with this id and of this source, which a foreign key refers to.
abbrev pub refers_to_daily : ℤ → ℤ → List DailyRow → Bool
refers_to_daily id s = any (λ daily. same_ℤ daily.id id && same_ℤ daily.source_id s)

pub same_ℤ_self : (n : ℤ) → same_ℤ n n ≡ true
same_ℤ_self n = ground arith

pub or_right : (a b : Bool) → b ≡ true → (a || b) ≡ true
or_right true b h = refl
or_right false b h = h

refers-append :
    (s : ℤ) (rows : List DailyRow) (row : DailyRow)
    → row.source_id ≡ s
    → refers_to_daily row.id s (rows ++ row ∷ []) ≡ true
refers-append s [] row e = rw (same_ℤ_self row.id) (rw e (rw (same_ℤ_self s) refl))
refers-append s (other ∷ rows) row e = or_right _ _ (refers-append s rows row e)

pub or_left : (a b : Bool) → a ≡ true → (a || b) ≡ true
or_left true b h = refl
or_left false b h = cc

change-id :
    (chosen : DailyRow → Bool) (change : DailyUsage → DailyUsage) (row : DailyRow)
    → DailyRow.id (change_if chosen change row) ≡ row.id
change-id chosen change row = ground arith

change-source :
    (chosen : DailyRow → Bool) (change : DailyUsage → DailyUsage) (row : DailyRow)
    → DailyRow.source_id (change_if chosen change row) ≡ row.source_id
change-source chosen change row = ground arith

refers-change :
    (chosen : DailyRow → Bool) (change : DailyUsage → DailyUsage) (s : ℤ) (k : Text)
    (rows : List DailyRow) (old : DailyRow)
    → find_daily s k rows ≡ some old
    → refers_to_daily old.id s (map (change_if chosen change) rows) ≡ true
refers-change chosen change s k [] old h = cc
refers-change chosen change s k (row ∷ rows) old h = elim (Bool-cases (is_daily s k row)) [
  | inl e ↦
      let found : some row ≡ some old = rw e at h in
      let same : row.id ≡ old.id = ground arith in
      or_left
        (same_ℤ (change_if chosen change row).id old.id
          && same_ℤ (change_if chosen change row).source_id s)
        (refers_to_daily old.id s (map (change_if chosen change) rows))
        (and_true {a = same_ℤ (change_if chosen change row).id old.id}
          {b = same_ℤ (change_if chosen change row).source_id s}
          (rw (change-id chosen change row) (rw same (same_ℤ_self old.id)))
          (rw (change-source chosen change row) (rw (is_daily-eq s k row e).0 (same_ℤ_self s))))
  | inr e ↦ or_right _ _ (refers-change chosen change s k rows old (rw e at h))
]

module _ (fresh : FreshIds) (now : ℤ) where
  written :
      (row : DailyRow) (found : Option DailyRow) (tables : Tables)
      → find_daily row.source_id row.source_key tables.daily ≡ found
      → content_checks row.source_key row.usage ≡ true
      → life_checks row.usage ≡ true
      → row.usage.last_seen_at_ms ≡ now
      → All (IsReady now) tables.daily
      → (id : ℤ) × (rows : List DailyRow) × (insert_or_update row found tables
          ≡ ok (id, record tables { daily = rows }))
        × All (IsReady now) rows
        × (refers_to_daily id row.source_id rows ≡ true)
  unfolding insert_or_update daily_checks
  written row none tables f content life seen ready = (
    row.id,
    tables.daily ++ row ∷ [],
    refl,
    All-append (IsReady now) tables.daily (row ∷ []) ready
        ((and_true content life, ground arith), tt),
    refers-append row.source_id tables.daily row refl,
  )
  written row (some old) tables f content life seen ready =
      let (done, ready') =
        update_daily_succeeds now (is_daily row.source_id row.source_key) (excluded row.usage)
          tables
          (λ other r e. (
            excluded_passes other row.usage
                (subst (λ (key : Text). content_checks key row.usage ≡ true)
                  (sym (is_daily-eq row.source_id row.source_key other e).1) content)
                life (r.0, ap (λ (n : ℤ). leb_ℤ other.usage.last_seen_at_ms n) seen ∙ r.1),
            ground arith,
          ))
          ready in
      (
        old.id,
        _,
        rw done refl,
        ready',
        refers-change (is_daily row.source_id row.source_key) (excluded row.usage) row.source_id
            row.source_key tables.daily old f,
      )

  -- An upsert of values that pass the CHECK clauses succeeds, and keeps all rows ready.
  pub upsert_daily_succeeds :
      (s : ℤ) (k : Text) (new : DailyUsage) (tables : Tables)
      → content_checks k new ≡ true
      → life_checks new ≡ true
      → new.last_seen_at_ms ≡ now
      → refers_to_source tables s ≡ true
      → refers_to_import tables new.latest_import_id s ≡ true
      → All (IsReady now) tables.daily
      → (id : ℤ) × (rows : List DailyRow) × (upsert_daily fresh s k new tables
          ≡ ok (id, record tables { daily = rows }))
        × All (IsReady now) rows
        × (refers_to_daily id s rows ≡ true)
  unfolding upsert_daily daily_checks
  upsert_daily_succeeds s k new tables content life seen source import ready =
      let row : DailyRow = record {
        id = fresh.of_daily tables.daily;
        source_id = s;
        source_key = k;
        usage = new;
      } in
      let (id, rows, done, ready', refers) =
        written row (find_daily s k tables.daily) tables refl content life seen ready in
      (id, rows, rw (content, life, source, import) done, ready', refers)
