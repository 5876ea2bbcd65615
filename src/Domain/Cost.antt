-- ===== src/Domain/Cost.antt =====
-- `UsageCost` and `CurrencyCode` of src-tauri/src/domain/usage.rs.
use burnly.Prelude.{
  ℕ, ◌+◌, ◌≡◌, ◌↔◌, ◌≤◌, Bool, ◌&&◌, [], ◌∷◌, Result, ok, err, leb, ltb, true, ◌==◌, if◌then◌else◌,
  length, all, All, arith, refl,
}
use burnly.Prelude.Text.{Text}
use burnly.Domain.TokenUsage.{UsageValidationError, invalid_currency_code}

pub data CostKind : Type 0 where
  source_reported collector_calculated collector_mixed burnly_calculated unknown : CostKind

pub data ValuedCostStatus : Type 0 where
  available estimated : ValuedCostStatus

pub record CurrencyCode : Type 0 where
  pub value : Text

pub data DataQuality : Type 0 where
  complete partial : DataQuality

pub data UsageCost : Type 0 where
  valued : ℕ → CurrencyCode → CostKind → ValuedCostStatus → UsageCost
  not_applicable : CostKind → UsageCost
  unavailable : CostKind → UsageCost

-- `char::len_utf8` and `str::len`, which counts bytes.
abbrev pub len_utf8 : ℕ → ℕ
len_utf8 c = if ltb c 0x80 then 1 else if ltb c 0x800 then 2 else if ltb c 0x10000 then 3 else 4

abbrev pub byte_len : Text → ℕ
byte_len [] = 0
byte_len (c ∷ s) = len_utf8 c + byte_len s

-- `u8::is_ascii_uppercase`. The bytes of a character beyond ASCII are 0x80 or more, so asking
-- this of all bytes and of all characters is the same.
abbrev pub is_ascii_uppercase : ℕ → Bool
is_ascii_uppercase c = leb b'A' c && leb c b'Z'

unfoldable pub new : Text → Result CurrencyCode UsageValidationError
new value =
    if byte_len value == 3 && all is_ascii_uppercase value
    then ok (record { value = value })
    else err invalid_currency_code

abbrev pub IsUppercase : ℕ → Type 0
IsUppercase c = (b'A' ≤ c) × (c ≤ b'Z')

pub len_utf8-pos : (c : ℕ) → 1 ≤ len_utf8 c
len_utf8-pos c = ground arith

all-IsUppercase_iff : (s : Text) → (all is_ascii_uppercase s ≡ true) ↔ All IsUppercase s
all-IsUppercase_iff [] = ground arith
all-IsUppercase_iff (c ∷ s) = ground (arith, all-IsUppercase_iff s)

byte_len-IsUppercase : (s : Text) → All IsUppercase s → byte_len s ≡ length s
byte_len-IsUppercase [] h = refl
byte_len-IsUppercase (c ∷ s) h = ground (arith, byte_len-IsUppercase s h.1)

-- A currency code is accepted, unchanged, exactly when it is three letters from A to Z; any other
-- text is refused as an invalid code.
pub new-IsUppercase_iff :
    (value : Text)
    → ((new value ≡ ok (record { value = value })) ↔ ((length value ≡ 3) × All IsUppercase value))
      × ((c : CurrencyCode) → new value ≡ ok c → c.value ≡ value)
unfolding new
new-IsUppercase_iff value = (
  (
    λ h. ground (arith, all-IsUppercase_iff value, byte_len-IsUppercase value),
    λ h. ground (arith, all-IsUppercase_iff value, byte_len-IsUppercase value h.1),
  ),
  λ c h. ground arith,
)
