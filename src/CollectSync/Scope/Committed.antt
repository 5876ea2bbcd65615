-- ===== src/CollectSync/Scope/Committed.antt =====
-- The scope that `into_upload_scope` makes of the targets that a refresh committed.
use burnly.Prelude.{
  ◌≤◌, ◌≡◌, ◌≢◌, refl, inl, inr, Bool, true, false, ◌&&◌, Option, none, some, List, [], ◌∷◌, ok,
  is_empty, all, All, In, In-All, max, arith, if◌then◌else◌, Bool-cases, Option-cases,
}
use burnly.Prelude.Text.{Text, text_eq_iff, trim}
use burnly.Domain.Identity.{NaiveDate}
use burnly.CollectSync.TextSet.{
  TextSet, contains, insert, extend, contains-insert, contains-extend, is_empty-contains,
}
use burnly.CollectSync.Scope.{
  UploadScope, full, incremental, cleaned, scope_incremental, CommittedDailyTarget,
  CommittedDailyUpload, epoch_or, next_start, widen, scope_of_targets, into_upload_scope,
}
use burnly.CollectSync.Scope.Merge.{Uploads}

cleaned-contains :
    (j : Text) (keys : List Text)
    → contains j keys ≡ true
    → is_empty (trim j) ≡ false
    → contains (trim j) (cleaned keys) ≡ true
unfolding cleaned
cleaned-contains j [] h named = cc
cleaned-contains j (key ∷ keys) h named =
    ground (arith, cleaned-contains j keys, text_eq_iff j key, text_eq_iff (trim j) (trim key))

set_of_cleaned :
    (j : Text) (keys : List Text)
    → contains j (cleaned keys) ≡ true
    → contains j (extend [] (cleaned keys)) ≡ true
set_of_cleaned j keys h = ground (arith, contains-extend j [] (cleaned keys))

scope_incremental-ok :
    (keys : List Text) (s e : NaiveDate) (j : Text)
    → contains j (extend [] (cleaned keys)) ≡ true
    → s ≤ e
    → scope_incremental keys s e ≡ ok (incremental (extend [] (cleaned keys)) s e)
unfolding scope_incremental
scope_incremental-ok keys s e j h le =
    ground (arith, is_empty-contains j (extend [] (cleaned keys)) h)

-- A day that is not before the epoch.
abbrev pub IsModern : Option NaiveDate → NaiveDate → Type 0
IsModern none start = Unit
IsModern (some date) start = date ≤ start

module _ (epoch : Option NaiveDate) where
  -- A target with its dates in order, a key that trimming leaves, and a start that is not before
  -- the epoch.
  pub record IsUsable (target : CommittedDailyTarget) : Type 0 where
    pub ordered : target.start_date ≤ target.end_date
    pub named : is_empty (trim target.source_key) ≡ false
    pub modern : IsModern epoch target.start_date

  -- The first day that a target stands for.
  abbrev pub first_day : CommittedDailyTarget → NaiveDate
  first_day target =
      if target.full_history then epoch_or epoch target.start_date else target.start_date

  next_start-le :
      (start : NaiveDate) (target : CommittedDailyTarget)
      → IsModern epoch start
      → IsUsable target
      → (next_start epoch start target ≤ start)
        × (next_start epoch start target ≤ first_day target)
        × IsModern epoch (next_start epoch start target)
  next_start-le start target modern usable = elim (Option-cases epoch) [
    | inl no_epoch ↦ ground (arith, usable.modern)
    | inr (date, e) ↦ ground (arith, usable.modern)
  ]

  record Widened (keys : TextSet) (start end : NaiveDate) (targets : List CommittedDailyTarget)
      : Type 0 where
    keeps_key :
        (j : Text)
        → contains j keys ≡ true
        → contains j (widen epoch keys start end targets).0 ≡ true
    starts : (widen epoch keys start end targets).1 ≤ start
    ends : end ≤ (widen epoch keys start end targets).2
    covers :
        (target : CommittedDailyTarget)
        → In target targets
        → (contains target.source_key (widen epoch keys start end targets).0 ≡ true)
          × ((widen epoch keys start end targets).1 ≤ first_day target)
          × (target.end_date ≤ (widen epoch keys start end targets).2)

  widen-Widened :
      (keys : TextSet) (start end : NaiveDate) (targets : List CommittedDailyTarget)
      → IsModern epoch start
      → All IsUsable targets
      → Widened keys start end targets
  unfolding widen
  widen-Widened keys start end [] modern usable = record {
    keeps_key = λ j h. h;
    starts = omega arith;
    ends = omega arith;
    covers = λ target i. absurd i;
  }
  widen-Widened keys start end (target ∷ targets) modern usable =
      let (before, first, still) = next_start-le start target modern usable.0 in
      let rest =
        widen-Widened (insert target.source_key keys) (next_start epoch start target)
          (max end target.end_date) targets still usable.1 in
      record {
        keeps_key =
            λ j h. rest.keeps_key j (ground (arith, contains-insert j target.source_key keys));
        starts = omega (arith, rest.starts);
        ends = omega (arith, rest.ends);
        covers = λ u. elim [
          | inl same ↦ rw same (
            rest.keeps_key target.source_key (
                ground (
                  arith,
                  contains-insert target.source_key target.source_key keys,
                  text_eq_iff target.source_key target.source_key,
                )),
            omega (arith, rest.starts),
            omega (arith, rest.ends),
          )
          | inr i ↦ rest.covers u i
        ];
      }

  abbrev Covering : Bool → List CommittedDailyTarget → Type 0
  Covering complete targets =
      (scope : UploadScope) × (scope_of_targets epoch complete targets ≡ some scope)
      × ((target : CommittedDailyTarget) (day : NaiveDate)
          → In target targets
          → first_day target ≤ day
          → day ≤ target.end_date
          → Uploads scope (trim target.source_key) day)

  -- The incremental scope, when not all is full history.
  incremental_covers :
      (complete : Bool) (first : CommittedDailyTarget) (rest : List CommittedDailyTarget)
      → (complete && all (λ target. target.full_history) (first ∷ rest)) ≡ false
      → All IsUsable (first ∷ rest)
      → Covering complete (first ∷ rest)
  incremental_covers complete first rest some_partial usable =
      let targets = first ∷ rest in
      let w = widen-Widened [] first.start_date first.end_date targets usable.0.modern usable in
      let joined = widen epoch [] first.start_date first.end_date targets in
      let named : (target : CommittedDailyTarget)
          → In target targets
          → contains (trim target.source_key) (extend [] (cleaned joined.0)) ≡ true =
        λ target i. set_of_cleaned (trim target.source_key) joined.0 (
          cleaned-contains target.source_key joined.0 (w.covers target i).0
            (In-All IsUsable targets target i usable).named) in
      (
        incremental (extend [] (cleaned joined.0)) joined.1 joined.2,
        rw some_partial (
            rw (
              scope_incremental-ok joined.0 joined.1 joined.2 (trim first.source_key)
                (named first (inl refl)) (omega (arith, w.starts, w.ends, usable.0.ordered)))),
        λ target day i from to. (
          named target i,
          omega (arith, (w.covers target i).1),
          omega (arith, (w.covers target i).2),
        ),
      )

  covering :
      (complete : Bool) (targets : List CommittedDailyTarget)
      → targets ≢ []
      → All IsUsable targets
      → Covering complete targets
  covering complete [] some_target usable = absurd (some_target refl)
  covering complete (first ∷ rest) some_target usable =
      elim (Bool-cases (complete && all (λ target. target.full_history) (first ∷ rest))) [
        | inl everything ↦ (full, rw everything, λ target day i from to. tt)
        | inr some_partial ↦ incremental_covers complete first rest some_partial usable
      ]

  -- If every committed target is usable and there is one, then there is an upload scope, and it
  -- uploads every target's source on every day from the target's start, or from 1970 if all of its
  -- history was collected, to the target's end.
  pub into_upload_scope-covers :
      (upload : CommittedDailyUpload)
      → upload.targets ≢ []
      → All IsUsable upload.targets
      → (scope : UploadScope) × (into_upload_scope epoch upload ≡ some scope)
        × ((target : CommittedDailyTarget) (day : NaiveDate)
            → In target upload.targets
            → first_day target ≤ day
            → day ≤ target.end_date
            → Uploads scope (trim target.source_key) day)
  unfolding into_upload_scope
  into_upload_scope-covers upload some_target usable =
      covering upload.full_refresh_complete upload.targets some_target usable
