-- ===== src/Pricing/Snapshot.antt =====
-- `PricingSnapshot` of src-tauri/src/application/cost/snapshot.rs: the `HashMap` is the list of
-- its entries in iteration order. Parsing the embedded JSON is not modelled.
pub mod Lookup
pub mod Order
use burnly.Prelude.{
  ℕ, Bool, true, false, ◌&&◌, ◌||◌, Option, none, some, List, [], ◌∷◌, map, ltb, ◌==◌,
  if◌then◌else◌,
}
use burnly.Prelude.Text.{Text, text_eq}
use burnly.Domain.Cost.{byte_len}

pub record PricingEntry (F : Type 0) : Type 0 where
  pub input : F
  pub output : F
  pub cache_read : Option F
  pub cache_write : Option F

abbrev pub PricingSnapshot : Type 0 → Type 0
PricingSnapshot F = List (Text × PricingEntry F)

-- `str::starts_with`
abbrev pub starts_with : Text → Text → Bool
starts_with s [] = true
starts_with [] (_ ∷ _) = false
starts_with (c ∷ s) (d ∷ p) = c == d && starts_with s p

-- `model.replace(['.', '@', '/'], "-")`
abbrev pub normalize : Text → Text
normalize = map (λ c. if c == b'.' || c == b'@' || c == b'/' then b'-' else c)

-- The test of `.filter(...)`.
abbrev pub is_base : Text → Text → Bool
is_base model name = ltb (byte_len name) (byte_len model) && starts_with model name

module _ {F : Type 0} where
  -- `HashMap::get`
  abbrev pub get : Text → PricingSnapshot F → Option (PricingEntry F)
  get model [] = none
  get model ((name, entry) ∷ entries) = if text_eq name model then some entry else get model entries

  -- `.max_by_key(...)`: of entries with one key the last wins, so the later one is kept unless
  -- the earlier is strictly longer.
  abbrev pub longer :
      Text × PricingEntry F → Option (Text × PricingEntry F) → Option (Text × PricingEntry F)
  longer e none = some e
  longer e (some f) = if ltb (byte_len f.0) (byte_len e.0) then some e else some f

  -- `.filter(...).max_by_key(...)`
  pub longest_base : Text → PricingSnapshot F → Option (Text × PricingEntry F)
  longest_base model [] = none
  longest_base model (e ∷ entries) =
      let rest = longest_base model entries in if is_base model e.0 then longer e rest else rest

  abbrev entry_of : Option (Text × PricingEntry F) → Option (PricingEntry F)
  entry_of none = none
  entry_of (some e) = some e.1

  abbrev or_else : Option (PricingEntry F) → Option (PricingEntry F) → Option (PricingEntry F)
  or_else (some e) _ = some e
  or_else none other = other

  unfoldable pub find : PricingSnapshot F → Text → Option (PricingEntry F)
  unfolding longest_base
  find entries model =
      or_else (get model entries)
        (or_else (get (normalize model) entries) (entry_of (longest_base model entries)))
