-- ===== src/Pricing/Snapshot/Order.antt =====
-- `PricingSnapshot::find` and the iteration order of the hash map.
use burnly.Prelude.{◌≡◌, refl, inl, inr, In, arith, Option-cases}
use burnly.Prelude.Text.{Text}
use burnly.Pricing.Snapshot.{PricingEntry, PricingSnapshot, normalize, get, longest_base, find}
use burnly.Pricing.Snapshot.Lookup.{
  starts_with_unique, is_base-starts_with, get-In, get-none, IsLongest, longest_base-none,
  longest_base-IsLongest,
}

module _ {F : Type 0} where
  -- Two snapshots that hold the same entries, each name once, answer every lookup alike.
  pub record SameEntries (es fs : PricingSnapshot F) : Type 0 where
    pub to : (e : Text × PricingEntry F) → In e es → In e fs
    pub from : (e : Text × PricingEntry F) → In e fs → In e es
    pub unique : (e f : Text × PricingEntry F) → In e es → In f es → e.0 ≡ f.0 → e ≡ f

  get-same : (m : Text) (es fs : PricingSnapshot F) → SameEntries es fs → get m es ≡ get m fs
  get-same m es fs s = elim (Option-cases (get m es)) [
    | inl nothing ↦ elim (Option-cases (get m fs)) [
      | inl none_too ↦ cc
      | inr (q, found) ↦ absurd (get-none m es q nothing (s.from (m, q) (get-In m fs q found)))
    ]
    | inr (p, found) ↦ elim (Option-cases (get m fs)) [
      | inl nothing ↦ absurd (get-none m fs p nothing (s.to (m, p) (get-In m es p found)))
      | inr (q, too) ↦
          cc (s.unique (m, p) (m, q) (get-In m es p found) (s.from (m, q) (get-In m fs q too)) refl)
    ]
  ]

  same_base :
      (m : Text) (es fs : PricingSnapshot F) (p q : Text × PricingEntry F)
      → IsLongest m es p
      → IsLongest m fs q
      → SameEntries es fs
      → p.0 ≡ q.0
  same_base m es fs p q l k s =
      starts_with_unique m p.0 q.0 (is_base-starts_with m p.0 l.base)
        (is_base-starts_with m q.0 k.base)
        (omega
          (arith, l.longest q (s.from q k.member) k.base, k.longest p (s.to p l.member) l.base))

  longest_base-same :
      (m : Text) (es fs : PricingSnapshot F)
      → SameEntries es fs
      → longest_base m es ≡ longest_base m fs
  longest_base-same m es fs s = elim (Option-cases (longest_base m es)) [
    | inl nothing ↦ elim (Option-cases (longest_base m fs)) [
      | inl none_too ↦ cc
      | inr (q, found) ↦
          let l = longest_base-IsLongest m fs q found in
          cc (longest_base-none m es q nothing (s.from q l.member), l.base)
    ]
    | inr (p, found) ↦ elim (Option-cases (longest_base m fs)) [
      | inl nothing ↦
          let l = longest_base-IsLongest m es p found in
          cc (longest_base-none m fs p nothing (s.to p l.member), l.base)
      | inr (q, too) ↦
          let l = longest_base-IsLongest m es p found in
          let k = longest_base-IsLongest m fs q too in
          cc (s.unique p q l.member (s.from q k.member) (same_base m es fs p q l k s))
    ]
  ]

  -- The price found for a model does not depend on the order in which the hash map iterates.
  pub find-order_irrelevant :
      (es fs : PricingSnapshot F) (model : Text) → SameEntries es fs → find es model ≡ find fs model
  unfolding find
  find-order_irrelevant es fs model s =
      rw (
        get-same model es fs s,
        get-same (normalize model) es fs s,
        longest_base-same model es fs s,
      )
