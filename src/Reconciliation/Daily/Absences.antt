-- ===== src/Reconciliation/Daily/Absences.antt =====
-- What the absence step makes of the usage under each key.
use burnly.Prelude.{
  ◌+◌, ◌≡◌, refl, Bool, true, false, ◌&&◌, not, Option, none, some, ok, if◌then◌else◌, ap, ◌∙◌,
}
use burnly.Prelude.Text.{Text}
use burnly.Prelude.Int.{ℤ, same_ℤ}
use burnly.Refresh.Runs.{SourceId, ImportRunId}
use burnly.Reconciliation.Tables.{Tables, DailyUsage, RecordState, active, missing, removed}
use burnly.Reconciliation.Tables.Statements.{update_daily}
use burnly.Reconciliation.Tables.Lookup.{
  usage_at, map_option, update_daily-ok, usage_at-update, continue-eq-ok,
}
use burnly.Reconciliation.Daily.{advance_absences, remove_at, miss, is_absent, is_state}

-- The step of a record that an import has not seen: an active one is missing, a missing one is
-- removed, and a removed one stays.
abbrev pub absent_in : ℤ → DailyUsage → RecordState → DailyUsage
absent_in now_ms usage active = record usage { record_state = missing; absence_count = 1 }
absent_in now_ms usage missing = record usage {
  record_state = removed;
  absence_count = usage.absence_count + 1;
  removed_at_ms = some now_ms;
}
absent_in now_ms usage removed = usage

abbrev pub absent : ℤ → DailyUsage → DailyUsage
absent now_ms usage = absent_in now_ms usage usage.record_state

module _ (s : SourceId) (i : ImportRunId) (now : ℤ) where
  -- `is_absent` of a row, by its source and its usage.
  abbrev pub pick : RecordState → ℤ → Text → DailyUsage → Bool
  pick state s' _ u =
      same_ℤ s' s.value && not (same_ℤ u.latest_import_id i.value) && is_state u.record_state state

  abbrev pub swept : ℤ → Text → DailyUsage → DailyUsage
  swept s' k u =
      let u' = if pick missing s' k u then remove_at now u else u in
      if pick active s' k u' then miss u' else u'

  -- The two updates, by what their conditions say.
  swept_by :
      (s' : ℤ) (k : Text) (u : DailyUsage) (b c : Bool)
      → pick missing s' k u ≡ b
      → pick active s' k (if b then remove_at now u else u) ≡ c
      → swept s' k u
        ≡ (if c then miss (if b then remove_at now u else u) else if b then remove_at now u else u)
  swept_by s' k u b c e f =
      let u' : Bool → DailyUsage = λ x. if x then remove_at now u else u in
      let test : Bool → Bool = λ x. pick active s' k (u' x) in
      ap (λ (x : Bool). if test x then miss (u' x) else u' x) e
      ∙ ap (λ (y : Bool). if y then miss (u' b) else u' b) f

  pick-eq :
      (state : RecordState) (s' : ℤ) (k : Text) (u : DailyUsage) (b l : Bool) (r : RecordState)
      → same_ℤ s' s.value ≡ b
      → same_ℤ u.latest_import_id i.value ≡ l
      → u.record_state ≡ r
      → pick state s' k u ≡ (b && not l && is_state r state)
  pick-eq state s' k u b l r h e f = λ j. h j && not (e j) && is_state (f j) state

  pub swept_in :
      (s' : ℤ) (k : Text) (u : DailyUsage) (state : RecordState)
      → u.record_state ≡ state
      → same_ℤ s' s.value ≡ true
      → same_ℤ u.latest_import_id i.value ≡ false
      → swept s' k u ≡ absent_in now u state
  swept_in s' k u active e h l =
      swept_by s' k u false true (pick-eq missing s' k u true false active h l e)
        (pick-eq active s' k u true false active h l e)
  swept_in s' k u missing e h l =
      swept_by s' k u true false (pick-eq missing s' k u true false missing h l e)
        (pick-eq active s' k (remove_at now u) true false removed h l refl)
  swept_in s' k u removed e h l =
      swept_by s' k u false false (pick-eq missing s' k u true false removed h l e)
        (pick-eq active s' k u true false removed h l e)

  -- The usage of other sources, and what this import has seen, stays.
  pub swept_other :
      (s' : ℤ) (k : Text) (u : DailyUsage) → same_ℤ s' s.value ≡ false → swept s' k u ≡ u
  swept_other s' k u h =
      swept_by s' k u false false (pick-eq missing s' k u false _ _ h refl refl)
        (pick-eq active s' k u false _ _ h refl refl)

  none_of_false : (b c : Bool) → (b && false && c) ≡ false
  none_of_false true c = refl
  none_of_false false c = refl

  pub swept_seen :
      (s' : ℤ) (k : Text) (u : DailyUsage)
      → same_ℤ u.latest_import_id i.value ≡ true
      → swept s' k u ≡ u
  swept_seen s' k u l =
      swept_by s' k u false false (pick-eq missing s' k u _ true _ refl l refl ∙ none_of_false _ _)
        (pick-eq active s' k u _ true _ refl l refl ∙ none_of_false _ _)

  map_option-map_option :
      (f g : DailyUsage → DailyUsage) (o : Option DailyUsage)
      → map_option g (map_option f o) ≡ map_option (λ u. g (f u)) o
  map_option-map_option f g none = refl
  map_option-map_option f g (some u) = refl

  pub advance_absences_lem :
      (tables tables' : Tables)
      → advance_absences s i now tables ≡ ok (tt, tables')
      → (s' : ℤ) (k : Text)
      → usage_at s' k tables'.daily ≡ map_option (swept s' k) (usage_at s' k tables.daily)
  unfolding advance_absences
  advance_absences_lem tables tables' h s' k =
      let (_, tables1, e, h1) =
        continue-eq-ok (update_daily (is_absent s i missing) (remove_at now) tables) _ h in
      ap (usage_at s' k) (update_daily-ok (is_absent s i active) miss tables1 tables' h1)
      ∙ usage_at-update (pick active) miss s' k tables1.daily
      ∙ ap (map_option (λ u. if pick active s' k u then miss u else u)) (
          ap (usage_at s' k)
            (update_daily-ok (is_absent s i missing) (remove_at now) tables tables1 e)
          ∙ usage_at-update (pick missing) (remove_at now) s' k tables.daily)
      ∙ map_option-map_option (λ u. if pick missing s' k u then remove_at now u else u)
          (λ u. if pick active s' k u then miss u else u) (usage_at s' k tables.daily)
