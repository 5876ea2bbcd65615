-- ===== src/Domain/Tests.antt =====
-- Runs of the domain types on concrete data.
use burnly.Prelude.{ℕ, ◌+◌, ◌≡◌, refl, some, [], ◌∷◌, ok, arith}
use burnly.Prelude.Text.{Text, text, is_blank, is_whitespace}
use burnly.Domain.TokenUsage.{TokenUsage, token_overflow, classified_tokens_exceed_total}
use burnly.Domain.TokenUsage
use burnly.Domain.TokenUsage.Totals.{IsValid, new-IsValid}
use burnly.Domain.Source.{SourceKey}
use burnly.Domain.Identity.{daily_source_key}
use burnly.Domain.Identity.Distinct.{NoColon, daily_source_key-injective}

abbrev usage : TokenUsage
usage = record {
  input_tokens = some 3;
  output_tokens = some 4;
  cache_creation_tokens = some 0;
  cache_read_tokens = some 1;
  total_tokens = 10;
  unclassified_tokens = some 2;
}

new-usage : TokenUsage.new (some 3) (some 4) (some 0) (some 1) 10 ≡ ok usage
unfolding TokenUsage.new
new-usage = refl

new-IsValid_example :
    IsValid usage
    × (usage.input_tokens ≡ some 3)
    × (usage.output_tokens ≡ some 4)
    × (usage.cache_creation_tokens ≡ some 0)
    × (usage.cache_read_tokens ≡ some 1)
    × (usage.total_tokens ≡ 10)
new-IsValid_example = new-IsValid (some 3) (some 4) (some 0) (some 1) 10 new-usage

-- A calendar that prints the n-th day as the letter after n others.
abbrev display : ℕ → Text
display n = (n + 100) ∷ []

display-NoColon : (x : ℕ) → NoColon (display x)
display-NoColon x = omega arith

display-injective : (x w : ℕ) → display x ≡ display w → x ≡ w
display-injective x w h = ground arith

abbrev daily_key : Text
daily_key = text "zed:daily:v1:UTC:e"

daily_source_key_zed : daily_source_key display SourceKey.zed 1 (text "UTC") ≡ ok daily_key
unfolding daily_source_key is_blank is_whitespace
daily_source_key_zed = refl

daily_source_key-injective_example :
    (SourceKey.zed ≡ SourceKey.zed) × (◌≡◌ {A = ℕ} 1 1) × (text "UTC" ≡ text "UTC")
daily_source_key-injective_example =
    daily_source_key-injective display SourceKey.zed SourceKey.zed 1 1 (text "UTC") (text "UTC")
      display-NoColon display-injective daily_source_key_zed daily_source_key_zed
