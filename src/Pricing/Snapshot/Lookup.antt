-- ===== src/Pricing/Snapshot/Lookup.antt =====
-- The prefix match of `PricingSnapshot::find`.
use burnly.Prelude.{
  ℕ, ◌≤◌, ◌<◌, ◌+◌, ◌++◌, ◌≢◌, ◌↔◌, ◌∙◌, ap, ==_iff, ◌≡◌, refl, ◌⊎◌, inl, inr, Bool, true, false,
  Option, none, some, [], ◌∷◌, ltb, if◌then◌else◌, In, arith, Bool-cases, Option-cases,
}
use burnly.Prelude.Text.{Text, text_eq, text_eq_iff}
use burnly.Domain.Cost.{byte_len, len_utf8-pos}
use burnly.Pricing.Snapshot.{
  PricingEntry, PricingSnapshot, starts_with, normalize, get, is_base, longer, longest_base, find,
}

-- Two prefixes of one text that are equally long are equal.
pub starts_with_unique :
    (s p q : Text)
    → starts_with s p ≡ true
    → starts_with s q ≡ true
    → byte_len p ≡ byte_len q
    → p ≡ q
starts_with_unique s [] [] hp hq e = refl
starts_with_unique s [] (d ∷ q) hp hq e = absurd (omega (arith, len_utf8-pos d))
starts_with_unique s (c ∷ p) [] hp hq e = absurd (omega (arith, len_utf8-pos c))
starts_with_unique [] (c ∷ p) (d ∷ q) hp hq e = cc
starts_with_unique (b ∷ s) (c ∷ p) (d ∷ q) hp hq e = ground (arith, starts_with_unique s p q)

pub is_base-starts_with : (m name : Text) → is_base m name ≡ true → starts_with m name ≡ true
is_base-starts_with m name h = ground arith

-- The text is a part of the other, from its start on, and not all of it.
abbrev pub IsProperPrefix : Text → Text → Type 0
IsProperPrefix name model = (rest : Text) × (rest ≢ []) × (model ≡ name ++ rest)

starts_with_rest : (s p : Text) → starts_with s p ≡ true → (rest : Text) × (s ≡ p ++ rest)
starts_with_rest s [] h = (s, refl)
starts_with_rest [] (c ∷ p) h = cc
starts_with_rest (b ∷ s) (c ∷ p) h =
    let (rest, same) = starts_with_rest s p (ground arith) in
    let head : b ≡ c = ground (arith, ==_iff b c) in
    (rest, ap (λ t. b ∷ t) same ∙ ap (λ x. x ∷ (p ++ rest)) head)

starts_with-append : (p rest : Text) → starts_with (p ++ rest) p ≡ true
starts_with-append [] rest = refl
starts_with-append (c ∷ p) rest = ground (arith, ==_iff c c, starts_with-append p rest)

byte_len-append : (p rest : Text) → byte_len (p ++ rest) ≡ byte_len p + byte_len rest
byte_len-append [] rest = omega arith
byte_len-append (c ∷ p) rest = omega (arith, byte_len-append p rest)

byte_len-pos : (rest : Text) → rest ≢ [] → 0 < byte_len rest
byte_len-pos [] h = absurd (h refl)
byte_len-pos (c ∷ rest) h = omega (arith, len_utf8-pos c)

is_base_iff : (m name : Text) → (is_base m name ≡ true) ↔ IsProperPrefix name m
is_base_iff m name = (
  λ h.
      let (rest, same) = starts_with_rest m name (is_base-starts_with m name h) in
      let shorter : byte_len name < byte_len m = ground arith in
      (
        rest,
        λ e.
            absurd
              (omega (arith, ap byte_len (same ∙ ap (λ r. name ++ r) e), byte_len-append name [])),
        same,
      ),
  λ (rest, more, same). rw same (
      ground
        (arith, byte_len-append name rest, byte_len-pos rest more, starts_with-append name rest)),
)

module _ {F : Type 0} where
  pub get-In :
      (m : Text) (es : PricingSnapshot F) (p : PricingEntry F) → get m es ≡ some p → In (m, p) es
  get-In m [] p h = cc
  get-In m ((name, q) ∷ es) p h = elim (Bool-cases (text_eq name m)) [
    | inl same ↦ inl (cc (h, (text_eq_iff name m).0 same, same))
    | inr other ↦ inr (get-In m es p (ground arith))
  ]

  pub get-none :
      (m : Text) (es : PricingSnapshot F) (p : PricingEntry F) → get m es ≡ none → ¬ In (m, p) es
  get-none m [] p h i = elim i [ ]
  get-none m ((name, q) ∷ es) p h (inl e) = ground (arith, text_eq_iff name m)
  get-none m ((name, q) ∷ es) p h (inr i) = get-none m es p (ground (arith, text_eq_iff name m)) i

  -- `e` is a base of the model, and no base in the list is longer.
  pub record IsLongest (m : Text) (es : PricingSnapshot F) (e : Text × PricingEntry F)
      : Type 0 where
    pub member : In e es
    pub base : is_base m e.0 ≡ true
    pub longest :
        (f : Text × PricingEntry F) → In f es → is_base m f.0 ≡ true → byte_len f.0 ≤ byte_len e.0

  abbrev pick :
      Bool → Text × PricingEntry F → Option (Text × PricingEntry F) → Option (Text × PricingEntry F)
  pick b e rest = if b then longer e rest else rest

  pick-none :
      (b : Bool) (e : Text × PricingEntry F) (rest : Option (Text × PricingEntry F))
      → pick b e rest ≡ none
      → (b ≡ false) × (rest ≡ none)
  pick-none false e rest h = (refl, h)
  pick-none true e none h = cc
  pick-none true e (some f) h = elim (Bool-cases (ltb (byte_len f.0) (byte_len e.0))) [
    | inl q ↦ cc (rw q at h)
    | inr q ↦ cc (rw q at h)
  ]

  -- The kept entry is the first one, no shorter than the best of the rest; or it is that best,
  -- and no shorter than the first one if that is a base.
  pick-some :
      (b : Bool) (e : Text × PricingEntry F) (rest : Option (Text × PricingEntry F))
      (d : Text × PricingEntry F)
      → pick b e rest ≡ some d
      → ((d ≡ e)
          × (b ≡ true)
          × ((f : Text × PricingEntry F) → rest ≡ some f → byte_len f.0 ≤ byte_len e.0))
        ⊎ ((rest ≡ some d) × (b ≡ true → byte_len e.0 ≤ byte_len d.0))
  pick-some false e rest d h = inr (h, λ q. cc)
  pick-some true e none d h = inl (cc, refl, λ f q. cc)
  pick-some true e (some f) d h = elim (Bool-cases (ltb (byte_len f.0) (byte_len e.0))) [
    | inl q ↦ inl (cc (rw q at h), refl, λ g r. ground arith)
    | inr q ↦ inr (rw q at h, λ r. ground (arith, rw q at h))
  ]

  pub longest_base-none :
      (m : Text) (es : PricingSnapshot F) (f : Text × PricingEntry F)
      → longest_base m es ≡ none
      → In f es
      → is_base m f.0 ≡ false
  unfolding longest_base
  longest_base-none m [] f h i = elim i [ ]
  longest_base-none m (e ∷ es) f h (inl i) =
      rw i (pick-none (is_base m e.0) e (longest_base m es) h).0
  longest_base-none m (e ∷ es) f h (inr i) =
      longest_base-none m es f (pick-none (is_base m e.0) e (longest_base m es) h).1 i

  -- What bounds the best of a list bounds every base in it.
  below_best :
      (m : Text) (es : PricingSnapshot F) (n : ℕ) (f : Text × PricingEntry F)
      → ((g : Text × PricingEntry F) → longest_base m es ≡ some g → byte_len g.0 ≤ n)
      → ((g : Text × PricingEntry F) → longest_base m es ≡ some g → IsLongest m es g)
      → In f es
      → is_base m f.0 ≡ true
      → byte_len f.0 ≤ n
  below_best m es n f above ih i b = elim (Option-cases (longest_base m es)) [
    | inl nothing ↦ cc (longest_base-none m es f nothing i)
    | inr (g, best) ↦ omega (arith, above g best, (ih g best).longest f i b)
  ]

  pub longest_base-IsLongest :
      (m : Text) (es : PricingSnapshot F) (e : Text × PricingEntry F)
      → longest_base m es ≡ some e
      → IsLongest m es e
  unfolding longest_base
  longest_base-IsLongest m [] e h = cc
  longest_base-IsLongest m (d ∷ es) e h =
      elim (pick-some (is_base m d.0) d (longest_base m es) e h) [
        | inl (same, b, above) ↦ rw same (record {
          member = inl refl;
          base = b;
          longest = λ f. elim [
            | inl q ↦ λ c. rw q (omega arith)
            | inr i ↦ λ c. below_best m es (byte_len d.0) f above (longest_base-IsLongest m es) i c
          ];
        })
        | inr (best, above) ↦
            let rest = longest_base-IsLongest m es e best in
            record {
              member = inr rest.member;
              base = rest.base;
              longest = λ f. elim [
                | inl q ↦ λ c. rw q (above (rw q at c))
                | inr i ↦ λ c. rest.longest f i c
              ];
            }
      ]

  -- What is found for a model that is not in the snapshot: the entry of a proper prefix of its name,
  -- with no longer one in the snapshot, or nothing if the snapshot has no proper prefix of it.
  abbrev pub IsFound : Text → PricingSnapshot F → Option (PricingEntry F) → Type 0
  IsFound m es none =
      (name : Text) (entry : PricingEntry F) → In (name, entry) es → ¬ IsProperPrefix name m
  IsFound m es (some entry) =
      (name : Text) × In (name, entry) es
      × IsProperPrefix name m
      × ((other : Text) (e : PricingEntry F)
          → In (other, e) es
          → IsProperPrefix other m
          → byte_len other ≤ byte_len name)

  IsFound-longest :
      (m : Text) (es : PricingSnapshot F) (e : Text × PricingEntry F)
      → IsLongest m es e
      → IsFound m es (some e.1)
  IsFound-longest m es e h = (
    e.0,
    h.member,
    (is_base_iff m e.0).0 h.base,
    λ other f i p. h.longest (other, f) i ((is_base_iff m other).1 p),
  )

  IsFound-none : (m : Text) (es : PricingSnapshot F) → longest_base m es ≡ none → IsFound m es none
  IsFound-none m es h name entry i p =
      let no_base = longest_base-none m es (name, entry) h i in
      cc (no_base, (is_base_iff m name).1 p)

  -- A model that is found neither by its name nor by its normalised name gets the entry of a name
  -- in the snapshot that is a proper prefix of it and no shorter than any other such name. It gets
  -- none exactly when no name in the snapshot is a proper prefix of it.
  pub find-IsLongest :
      (es : PricingSnapshot F) (model : Text)
      → get model es ≡ none
      → get (normalize model) es ≡ none
      → IsFound model es (find es model)
  unfolding find
  find-IsLongest es model h k = elim (Option-cases (longest_base model es)) [
    | inl nothing ↦ rw (h, k, nothing) (IsFound-none model es nothing)
    | inr (e, best) ↦
        rw (h, k, best) (IsFound-longest model es e (longest_base-IsLongest model es e best))
  ]
