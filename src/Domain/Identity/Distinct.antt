-- ===== src/Domain/Identity/Distinct.antt =====
-- Identity keys against the records that they are made from.
use burnly.Prelude.{ℕ, ◌≡◌, refl, ◌≢◌, sym, ap, ◌∙◌, [], ◌∷◌, ◌++◌, ok, All, arith}
use burnly.Prelude.Text.{Text, text}
use burnly.Domain.Source.{SourceKey, as_str, from_storage, from_storage-as_str, claude_code}
use burnly.Domain.Identity.{NaiveDate, daily_source_key, session_source_key}

-- No character of the text is a colon.
abbrev pub NoColon : Text → Type 0
NoColon = All (λ c. c ≢ b':')

as_str-NoColon : (source : SourceKey) → NoColon (as_str source)
as_str-NoColon claude_code = omega arith
as_str-NoColon _ = omega arith

-- The first colon of a text is found in one way only.
split_first :
    (a b x y : Text) → NoColon a → NoColon b → a ++ (b':' ∷ x) ≡ b ++ (b':' ∷ y) → (a ≡ b) × (x ≡ y)
split_first [] [] x y na nb e = (refl, cc)
split_first [] (c ∷ b) x y na nb e = absurd (nb.0 (cc))
split_first (c ∷ a) [] x y na nb e = absurd (na.0 (cc))
split_first (c ∷ a) (d ∷ b) x y na nb e =
    let ih : (a ≡ b) × (x ≡ y) = split_first a b x y na.1 nb.1 (cc) in ground (arith, ih)

NoColon-tail : (t x a : Text) → NoColon a → a ≢ t ++ (b':' ∷ x)
NoColon-tail t x [] na e =
    elim t as (λ s. [] ≡ s ++ (b':' ∷ x) → ⊥) [ [] ↦ λ h. cc | c ∷ s ↦ λ h. cc ] e
NoColon-tail [] x (c ∷ a) na e = na.0 (cc)
NoColon-tail (d ∷ t) x (c ∷ a) na e = NoColon-tail t x a na.1 (cc)

-- And so is its last.
split_last :
    (x y a b : Text) → NoColon a → NoColon b → x ++ (b':' ∷ a) ≡ y ++ (b':' ∷ b) → (x ≡ y) × (a ≡ b)
split_last [] [] a b na nb e = (refl, cc)
split_last [] (c ∷ y) a b na nb e = absurd (NoColon-tail y b a na (cc))
split_last (c ∷ x) [] a b na nb e = absurd (NoColon-tail x a b nb (cc))
split_last (c ∷ x) (d ∷ y) a b na nb e =
    let ih : (x ≡ y) × (a ≡ b) = split_last x y a b na nb (cc) in ground (arith, ih)

as_str-injective : (a b : SourceKey) → as_str a ≡ as_str b → a ≡ b
as_str-injective a b e = cc (from_storage-as_str a, from_storage-as_str b, ap from_storage e)

module _ (display : NaiveDate → Text) where
  daily_text :
      (source : SourceKey) (date : NaiveDate) (timezone : Text) {key : Text}
      → daily_source_key display source date timezone ≡ ok key
      → key ≡ as_str source ++ (b':' ∷ (text "daily:v1:" ++ (timezone ++ (b':' ∷ display date))))
  unfolding daily_source_key
  daily_text source date timezone h = ground arith

session_text :
    (source : SourceKey) (id : Text) {key : Text}
    → session_source_key source id ≡ ok key
    → key ≡ as_str source ++ (b':' ∷ (text "session:v1:" ++ id))
unfolding session_source_key
session_text source id h = ground arith

-- Two daily records with one key have one source, one date and one timezone, whatever colons the
-- timezone holds, as long as dates print without colons and distinct dates print differently.
pub daily_source_key-injective :
    (display : NaiveDate → Text) (s t : SourceKey) (d e : NaiveDate) (y z : Text) {key : Text}
    → ((x : NaiveDate) → NoColon (display x))
    → ((x w : NaiveDate) → display x ≡ display w → x ≡ w)
    → daily_source_key display s d y ≡ ok key
    → daily_source_key display t e z ≡ ok key
    → (s ≡ t) × (d ≡ e) × (y ≡ z)
daily_source_key-injective display s t d e y z plain one h k =
    let first : (as_str s ≡ as_str t) × _ =
      split_first (as_str s) (as_str t) _ _ (as_str-NoColon s) (as_str-NoColon t)
        (sym (daily_text display s d y h) ∙ daily_text display t e z k) in
    let last : (y ≡ z) × (display d ≡ display e) =
      split_last y z (display d) (display e) (plain d) (plain e) (cc first.1) in
    (as_str-injective s t first.0, one d e last.1, last.0)

abbrev first_char : Text → ℕ
first_char [] = 0
first_char (c ∷ s) = c

-- No daily record shares its key with a session.
pub daily-ne-session :
    (display : NaiveDate → Text) (s t : SourceKey) (d : NaiveDate) (y id : Text) {key : Text}
    → daily_source_key display s d y ≡ ok key
    → session_source_key t id ≢ ok key
daily-ne-session display s t d y id h k =
    let first : (as_str s ≡ as_str t) × _ =
      split_first (as_str s) (as_str t) _ _ (as_str-NoColon s) (as_str-NoColon t)
        (sym (daily_text display s d y h) ∙ session_text t id k) in
    let letters : ◌≡◌ {A = ℕ} b'd' b's' = ap first_char first.1 in omega arith
