-- ===== src/Reconciliation/Daily/Ready.antt =====
-- The rows that the statements of a reconciliation write pass the CHECK clauses.
use burnly.Prelude.{◌≡◌, refl, Bool, true, false, ◌&&◌, none, ok, arith, leb}
use burnly.Prelude.Text.{Text}
use burnly.Prelude.Sql.{is_filled, is_date_shaped}
use burnly.Prelude.Int.{ℤ, pos, leb_ℤ}
use burnly.Domain.Cost.{DataQuality}
use burnly.Domain.Identity.{NaiveDate}
use burnly.Collection.Candidate.{DailyUsageCandidate}
use burnly.Refresh.Runs.{ImportRunId}
use burnly.Reconciliation.{data_quality_value}
use burnly.Reconciliation.Tables.{
  DailyUsage, DailyRow, FreshIds, daily_checks, content_checks, life_checks, active, missing,
}
use burnly.Reconciliation.Tables.Statements.{excluded}
use burnly.Reconciliation.Daily.{usage_of, remove_at, miss}
use burnly.Reconciliation.Daily.Accepted.{
  TokensFit, CostFits, token_columns-fits, daily_cost-fits, status_passes, is_kind,
}

-- The row passes the CHECK clauses, and was seen last at `now` or before.
abbrev pub IsReady : ℤ → DailyRow → Type 0
IsReady now row = (daily_checks row ≡ true) × (leb_ℤ row.usage.last_seen_at_ms now ≡ true)

-- The values of a candidate pass the CHECK clauses.
abbrev pub IsStorable : (NaiveDate → Text) → DailyUsageCandidate → Type 0
IsStorable display candidate =
    TokensFit candidate.tokens
    × CostFits candidate.cost
    × (is_filled candidate.source_key ≡ true)
    × (is_filled candidate.aggregation_timezone ≡ true)
    × (is_date_shaped (display candidate.usage_date) ≡ true)

quality_filled : (quality : DataQuality) → is_filled (data_quality_value quality) ≡ true
quality_filled DataQuality.complete = refl
quality_filled DataQuality.partial = refl

pub leb_ℤ_refl : (n : ℤ) → leb_ℤ n n ≡ true
leb_ℤ_refl n = ground arith

pub and_true : {a b : Bool} → a ≡ true → b ≡ true → (a && b) ≡ true
and_true h k = rw h k

and_left : (a b : Bool) → (a && b) ≡ true → a ≡ true
and_left true b h = refl
and_left false b h = h

and_right : (a b : Bool) → (a && b) ≡ true → b ≡ true
and_right true b h = h
and_right false b h = cc

content_passes :
    (key : Text) (u : DailyUsage)
    → is_filled key ≡ true
    → is_date_shaped u.usage_date ≡ true
    → is_filled u.aggregation_timezone ≡ true
    → status_passes u.cost ≡ true
    → is_kind u.cost.kind ≡ true
    → is_filled u.data_quality ≡ true
    → leb 1 u.identity_version ≡ true
    → content_checks key u ≡ true
unfolding content_checks
content_passes key u k d t c m q v =
    let shaped = and_true (and_true (and_true {a = is_filled key} k v) d) t in
    let priced =
      and_true {b = is_kind u.cost.kind} (and_true {b = status_passes u.cost} shaped c) m in
    and_true priced q

new_passes :
    (u : DailyUsage) (now : ℤ)
    → leb_ℤ (pos 0) now ≡ true
    → u.first_seen_at_ms ≡ now
    → u.last_seen_at_ms ≡ now
    → u.removed_at_ms ≡ none
    → u.record_state ≡ active
    → u.absence_count ≡ 0
    → life_checks u ≡ true
unfolding life_checks
new_passes u now h f l r s a = ground arith

excluded_lives :
    (new old : DailyUsage)
    → life_checks new ≡ true
    → life_checks old ≡ true
    → leb_ℤ old.last_seen_at_ms new.last_seen_at_ms ≡ true
    → life_checks (excluded new old) ≡ true
unfolding life_checks
excluded_lives new old h k l = ground arith

removed_lives :
    (u : DailyUsage) (now : ℤ)
    → u.record_state ≡ missing
    → life_checks u ≡ true
    → leb_ℤ u.last_seen_at_ms now ≡ true
    → life_checks (remove_at now u) ≡ true
unfolding life_checks
removed_lives u now e k l = ground arith

missed_lives :
    (u : DailyUsage) → u.record_state ≡ active → life_checks u ≡ true → life_checks (miss u) ≡ true
unfolding life_checks
missed_lives u e k = ground arith

pub usage_of-fits :
    (fresh : FreshIds) (display : NaiveDate → Text) (i : ImportRunId) (now : ℤ)
    (candidate : DailyUsageCandidate)
    → leb_ℤ (pos 0) now ≡ true
    → IsStorable display candidate
    → (u : DailyUsage) × (usage_of fresh display i now candidate ≡ ok u)
      × (u.latest_import_id ≡ i.value)
      × (u.last_seen_at_ms ≡ now)
      × (content_checks candidate.source_key u ≡ true)
      × (life_checks u ≡ true)
unfolding usage_of
usage_of-fits fresh display i now candidate h (tokens, cost, key, timezone, date) =
    let (columns, made) = token_columns-fits candidate.tokens tokens in
    let (costs, priced, valued, kind) = daily_cost-fits candidate.cost cost in
    let u : DailyUsage = record {
      identity_version = 1;
      usage_date = display candidate.usage_date;
      aggregation_timezone = candidate.aggregation_timezone;
      tokens = columns;
      cost = costs;
      data_quality = data_quality_value candidate.provenance.data_quality;
      record_state = active;
      absence_count = 0;
      first_seen_at_ms = now;
      last_seen_at_ms = now;
      removed_at_ms = none;
      latest_import_id = i.value;
    } in
    (
      u,
      rw (made, priced) refl,
      refl,
      refl,
      content_passes candidate.source_key u key date timezone valued kind
          (quality_filled candidate.provenance.data_quality) refl,
      new_passes u now h refl refl refl refl refl,
    )

pub excluded_passes :
    (row : DailyRow) (new : DailyUsage)
    → content_checks row.source_key new ≡ true
    → life_checks new ≡ true
    → IsReady new.last_seen_at_ms row
    → daily_checks (record row { usage = excluded new row.usage }) ≡ true
unfolding daily_checks content_checks
excluded_passes row new h e (k, l) = and_true h (excluded_lives new row.usage e (and_right _ _ k) l)

pub remove_at_passes :
    (row : DailyRow) (now : ℤ)
    → row.usage.record_state ≡ missing
    → IsReady now row
    → daily_checks (record row { usage = remove_at now row.usage }) ≡ true
unfolding daily_checks content_checks
remove_at_passes row now e (k, l) =
    and_true (and_left _ _ k) (removed_lives row.usage now e (and_right _ _ k) l)

pub miss_passes :
    (row : DailyRow)
    → row.usage.record_state ≡ active
    → daily_checks row ≡ true
    → daily_checks (record row { usage = miss row.usage }) ≡ true
unfolding daily_checks content_checks
miss_passes row e k = and_true (and_left _ _ k) (missed_lives row.usage e (and_right _ _ k))
