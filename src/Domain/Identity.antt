-- ===== src/Domain/Identity.antt =====
-- The versioned identity keys of src-tauri/src/domain/identity.rs.
pub mod Distinct
use burnly.Prelude.{ℕ, List, [], ◌∷◌, ◌++◌, Result, ok, err, if◌then◌else◌}
use burnly.Prelude.Text.{Text, text, is_blank}
use burnly.Domain.Source.{SourceKey, as_str}

pub data IdentityError : Type 0 where
  empty_aggregation_timezone empty_session_id : IdentityError

-- A `NaiveDate` is its position in chrono's calendar, so its order is that of ℕ. How chrono
-- prints one is the parameter `display`.
abbrev pub NaiveDate : Type 0
NaiveDate = ℕ

module _ (display : NaiveDate → Text) where
  unfoldable pub daily_source_key : SourceKey → NaiveDate → Text → Result Text IdentityError
  daily_source_key source usage_date timezone =
      if is_blank timezone
      then err empty_aggregation_timezone
      else ok (as_str source ++ (text ":daily:v1:" ++ (timezone ++ (b':' ∷ display usage_date))))

unfoldable pub session_source_key : SourceKey → Text → Result Text IdentityError
session_source_key source session_id =
    if is_blank session_id
    then err empty_session_id
    else ok (as_str source ++ (text ":session:v1:" ++ session_id))
