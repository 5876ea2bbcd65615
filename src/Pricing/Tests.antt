-- ===== src/Pricing/Tests.antt =====
-- Runs of the pricing code on concrete data.
use burnly.Prelude.{
  ◌≢◌, sym, ap, ◌∙◌, ℕ, ◌+◌, ◌*◌, ◌/◌, ◌≡◌, ◌⊎◌, refl, true, none, some, [], ◌∷◌, In, ltb, inl, inr,
}
use burnly.Prelude.Text.{Text, text}
use burnly.Domain.TokenUsage.{TokenUsage}
use burnly.Domain.Cost.{DataQuality}
use burnly.Domain.Source.{SourceKey}
use burnly.Collection.Candidate.{
  ModelUsageCandidate, DailyUsageCandidate, SessionUsageCandidate, CandidateProvenance,
}
use burnly.Pricing.Float.{FloatOps}
use burnly.Pricing.Snapshot.{PricingEntry, PricingSnapshot, find}
use burnly.Pricing.Snapshot.Lookup.{IsFound, find-IsLongest}
use burnly.Pricing.Snapshot.Order.{SameEntries, find-order_irrelevant}
use burnly.Pricing.Calculator.{calculated}
use burnly.Pricing.GapFill.{gap_fill_daily}
use burnly.Pricing.GapFill.Candidates.{DailyFilled, gap_fill_daily-cases}

-- Fixed-point numbers in place of floats: thousandths, none of them negative.
abbrev fixed : FloatOps
fixed = record {
  F64 = ℕ;
  zero_f = 0;
  half_f = 500;
  million_f = 1000000000;
  of_u64 = λ n. n * 1000;
  as_u64 = λ x. x / 1000;
  add_f = λ x y. x + y;
  mul_f = λ x y. x * y / 1000;
  floor = λ x. x / 1000 * 1000;
  is_finite = λ _. true;
  lt_f = λ x y. ltb x y;
}

-- Two dollars a token, and half of that from the cache.
abbrev price : PricingEntry ℕ
price = record { input = 2000; output = 2000; cache_read = some 1000; cache_write = some 1000 }

abbrev snapshot : PricingSnapshot ℕ
snapshot = (text "gpt", price) ∷ []

abbrev tokens : TokenUsage
tokens = record {
  input_tokens = some 3;
  output_tokens = some 4;
  cache_creation_tokens = some 0;
  cache_read_tokens = some 1;
  total_tokens = 8;
  unclassified_tokens = some 0;
}

abbrev model : ModelUsageCandidate
model = record { raw_model_id = text "gpt"; tokens = tokens; cost = calculated 0 }

abbrev provenance : CandidateProvenance
provenance = record {
  source = SourceKey.codex;
  collector = record { value = text "ccusage" };
  collector_version = text "1";
  profile_version = 1;
  collection_id = record { value = text "c" };
  observed_at = 5;
  data_quality = DataQuality.complete;
  warnings = [];
}

abbrev day : DailyUsageCandidate
day = record {
  provenance = provenance;
  source_key = text "k";
  usage_date = 10;
  aggregation_timezone = text "UTC";
  tokens = tokens;
  cost = calculated 0;
  model_breakdowns = model ∷ [];
}

abbrev session : SessionUsageCandidate
session = record {
  provenance = provenance;
  source_key = text "k";
  source_session_id = text "s";
  project_path = none;
  first_activity_at = none;
  last_activity_at = none;
  tokens = tokens;
  cost = calculated 0;
  model_breakdowns = model ∷ [];
}

gap_fill_daily-cases_example :
    (gap_fill_daily fixed day snapshot ≡ day) ⊎ DailyFilled day (gap_fill_daily fixed day snapshot)
gap_fill_daily-cases_example = gap_fill_daily-cases fixed snapshot day

find-IsLongest_example : IsFound (text "gpt-5") snapshot (find snapshot (text "gpt-5"))
find-IsLongest_example = find-IsLongest snapshot (text "gpt-5") refl refl

-- The same two entries in two orders.
abbrev forth : PricingSnapshot ℕ
forth = (text "gpt", price) ∷ (text "gpt-5", price) ∷ []

abbrev back : PricingSnapshot ℕ
back = (text "gpt-5", price) ∷ (text "gpt", price) ∷ []

apart : text "gpt" ≢ text "gpt-5"
apart h = cc

swapped : (c d e : Text × PricingEntry ℕ) → In e (c ∷ d ∷ []) → In e (d ∷ c ∷ [])
swapped c d e (inl h) = inr (inl h)
swapped c d e (inr (inl h)) = inl h
swapped c d e (inr (inr i)) = absurd i

same_name : (e f : Text × PricingEntry ℕ) → In e forth → In f forth → e.0 ≡ f.0 → e ≡ f
same_name e f (inl h) (inr (inr j)) n = absurd j
same_name e f (inr (inl h)) (inr (inr j)) n = absurd j
same_name e f (inr (inr i)) j n = absurd i
same_name e f (inl h) (inl k) n = cc
same_name e f (inl h) (inr (inl k)) n = absurd (apart (sym (ap (λ x. x.0) h) ∙ n ∙ ap (λ x. x.0) k))
same_name e f (inr (inl h)) (inl k) n =
    absurd (apart (sym (ap (λ x. x.0) k) ∙ sym n ∙ ap (λ x. x.0) h))
same_name e f (inr (inl h)) (inr (inl k)) n = cc

forth-SameEntries : SameEntries forth back
forth-SameEntries = record {
  to = swapped (text "gpt", price) (text "gpt-5", price);
  from = swapped (text "gpt-5", price) (text "gpt", price);
  unique = same_name;
}

find-order_irrelevant_example : find forth (text "gpt-5-mini") ≡ find back (text "gpt-5-mini")
find-order_irrelevant_example =
    find-order_irrelevant forth back (text "gpt-5-mini") forth-SameEntries
