-- ===== src/CollectSync/Scope.antt =====
-- src-tauri/src/application/collect_sync/scope.rs, and `CommittedDailyUpload` of service.rs.
pub mod Merge
pub mod Committed
use burnly.Prelude.{
  ℕ, Bool, true, false, ◌&&◌, Option, none, some, List, [], ◌∷◌, Result, ok, err, to_option, ltb,
  if◌then◌else◌, is_empty, all, map, min, max, ◌>>=◌, ok_or,
}
use burnly.Prelude.Text.{Text, trim}
use burnly.Domain.Identity.{NaiveDate}
use burnly.CollectSync.TextSet.{TextSet, insert, extend}

pub data UploadScope : Type 0 where
  full : UploadScope
  incremental : TextSet → NaiveDate → NaiveDate → UploadScope

pub data StoredUploadScope : Type 0 where
  full : StoredUploadScope
  incremental : List Text → Text → Text → StoredUploadScope

pub data ScopeError : Type 0 where
  empty_source_keys inverted_date_range invalid_stored_date : ScopeError

-- `.map(trim).filter(|key| !key.is_empty())`
pub cleaned : List Text → List Text
unfolding trim
cleaned [] = []
cleaned (key ∷ keys) =
    let rest = cleaned keys in if is_empty (trim key) then rest else trim key ∷ rest

-- `UploadScope::incremental`
unfoldable pub scope_incremental : List Text → NaiveDate → NaiveDate → Result UploadScope ScopeError
unfolding cleaned
scope_incremental source_keys start_date end_date =
    if ltb end_date start_date
    then err inverted_date_range
    else let keys = extend [] (cleaned source_keys) in
      if is_empty keys
      then err empty_source_keys
      else ok (UploadScope.incremental keys start_date end_date)

-- `merge_upload_scopes`
unfoldable pub merge_upload_scopes : Option UploadScope → UploadScope → UploadScope
merge_upload_scopes _ UploadScope.full = UploadScope.full
merge_upload_scopes (some UploadScope.full) (UploadScope.incremental _ _ _) = UploadScope.full
merge_upload_scopes none (UploadScope.incremental keys s e) = UploadScope.incremental keys s e
merge_upload_scopes (some (UploadScope.incremental existing s e))
      (UploadScope.incremental incoming s' e') =
    UploadScope.incremental (extend existing incoming) (min s s') (max e e')

-- How chrono prints a date, and parses one by "%Y-%m-%d".
module _ (display : NaiveDate → Text) (parse : Text → Option NaiveDate) where
  -- `StoredUploadScope::from`
  unfoldable pub to_stored : UploadScope → StoredUploadScope
  to_stored UploadScope.full = StoredUploadScope.full
  to_stored (UploadScope.incremental keys s e) =
      StoredUploadScope.incremental keys (display s) (display e)

  -- `UploadScope::try_from`
  unfoldable pub from_stored : StoredUploadScope → Result UploadScope ScopeError
  unfolding scope_incremental
  from_stored StoredUploadScope.full = ok UploadScope.full
  from_stored (StoredUploadScope.incremental keys s e) = do
    start_date ← ok_or (parse s) invalid_stored_date
    end_date ← ok_or (parse e) invalid_stored_date
    scope_incremental keys start_date end_date

pub record CommittedDailyTarget : Type 0 where
  pub source_key : Text
  pub start_date : NaiveDate
  pub end_date : NaiveDate
  pub full_history : Bool

pub record CommittedDailyUpload : Type 0 where
  pub targets : List CommittedDailyTarget
  pub full_refresh_complete : Bool

-- chrono's `from_ymd_opt(1970, 1, 1)`.
module _ (epoch : Option NaiveDate) where
  -- `NaiveDate::from_ymd_opt(1970, 1, 1).unwrap_or(start)`
  abbrev pub epoch_or : NaiveDate → NaiveDate
  epoch_or start = elim epoch [ none ↦ start | some date ↦ date ]

  -- The new `start` after one target.
  abbrev pub next_start : NaiveDate → CommittedDailyTarget → NaiveDate
  next_start start target =
      let start' = min start target.start_date in
      if target.full_history then epoch_or start' else start'

  -- The loop of `into_upload_scope`, over `source_keys`, `start` and `end`.
  pub widen :
      TextSet → NaiveDate → NaiveDate → List CommittedDailyTarget → TextSet × NaiveDate × NaiveDate
  widen keys start end [] = (keys, start, end)
  widen keys start end (target ∷ targets) =
      widen (insert target.source_key keys) (next_start start target) (max end target.end_date)
        targets

  -- `CommittedDailyUpload::into_upload_scope`
  abbrev pub scope_of_targets : Bool → List CommittedDailyTarget → Option UploadScope
  scope_of_targets complete [] = none
  scope_of_targets complete (first ∷ rest) =
      if complete && all (λ target. target.full_history) (first ∷ rest)
      then some UploadScope.full
      else let (keys, start, end) = widen [] first.start_date first.end_date (first ∷ rest) in
        to_option (scope_incremental keys start end)

  unfoldable pub into_upload_scope : CommittedDailyUpload → Option UploadScope
  unfolding widen scope_incremental
  into_upload_scope upload = scope_of_targets upload.full_refresh_complete upload.targets
