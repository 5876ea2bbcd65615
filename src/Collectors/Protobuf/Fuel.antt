-- ===== src/Collectors/Protobuf/Fuel.antt =====
-- The rounds of the search for a field of protobuf_usage.rs.
use burnly.Prelude.{
  ℕ, zero, suc, ◌+◌, ◌/◌, ◌%◌, ◌<◌, ◌≤◌, ◌≡◌, refl, ap, Bool, true, false, Option, none, some, [],
  ◌∷◌, length, arith, ltb, leb, if◌then◌else◌, ◌==◌,
}
use burnly.Collectors.Protobuf.{
  Bytes, Wire, fixed64, fixed32, read_varint, read_varint_from, split_at, cons_front, search,
  varint_wire, fixed_wire, len_wire, len_of, wire_after, with_field, after_tag, next_field, or_rest,
  find_field,
}

-- Of the bytes that are left, if something was read.
abbrev Leaves : {A : Type 0} → (Bytes → Type 0) → Option (A × Bytes) → Type 0
Leaves P none = Unit
Leaves P (some (a, rest)) = P rest

if-Leaves :
    {A : Type 0} (P : Bytes → Type 0) (b : Bool) (o o' : Option (A × Bytes))
    → Leaves P o
    → Leaves P o'
    → Leaves P (if b then o else o')
if-Leaves P true o o' h k = h
if-Leaves P false o o' h k = k

abbrev Below : ℕ → Bytes → Type 0
Below n rest = length rest < n

Leaves-weaken :
    {A : Type 0} (n m : ℕ) (o : Option (A × Bytes))
    → n ≤ m
    → Leaves (Below n) o
    → Leaves (Below m) o
Leaves-weaken n m none h l = tt
Leaves-weaken n m (some (a, rest)) h l = omega arith

-- Reading a number takes at least one byte.
read_varint-Leaves :
    (bytes : Bytes) (result shift : ℕ)
    → Leaves (Below (length bytes)) (read_varint_from bytes result shift)
unfolding read_varint_from
read_varint-Leaves [] result shift = tt
read_varint-Leaves (byte ∷ rest) result shift =
    if-Leaves (Below (suc (length rest))) (ltb (byte % 256) 128) _ _ (omega arith) (
      if-Leaves (Below (suc (length rest))) (leb 64 (shift + 7)) _ _ tt (
        Leaves-weaken (length rest) (suc (length rest)) _ (omega arith)
          (read_varint-Leaves rest _ (shift + 7))))

cons_front-Leaves :
    (n byte : ℕ) (o : Option (Bytes × Bytes))
    → Leaves (Below n) o
    → Leaves (Below (suc n)) (cons_front byte o)
cons_front-Leaves n byte none l = tt
cons_front-Leaves n byte (some (front, back)) l = omega arith

split_at-Leaves : (n : ℕ) (bytes : Bytes) → Leaves (Below (suc (length bytes))) (split_at n bytes)
unfolding split_at
split_at-Leaves zero bytes = omega arith
split_at-Leaves (suc n) [] = tt
split_at-Leaves (suc n) (byte ∷ bytes) =
    cons_front-Leaves (suc (length bytes)) byte _ (split_at-Leaves n bytes)

varint_wire-Leaves :
    (n : ℕ) (o : Option (ℕ × Bytes)) → Leaves (Below n) o → Leaves (Below n) (varint_wire o)
varint_wire-Leaves n none l = tt
varint_wire-Leaves n (some (value, rest)) l = l

fixed_wire-Leaves :
    (n : ℕ) (wire : Wire) (o : Option (Bytes × Bytes))
    → Leaves (Below n) o
    → Leaves (Below n) (fixed_wire wire o)
fixed_wire-Leaves n wire none l = tt
fixed_wire-Leaves n wire (some (front, back)) l = l

len_wire-Leaves :
    (n : ℕ) (o : Option (Bytes × Bytes)) → Leaves (Below n) o → Leaves (Below n) (len_wire o)
len_wire-Leaves n none l = tt
len_wire-Leaves n (some (front, back)) l = l

len_of-Leaves :
    (n : ℕ) (o : Option (ℕ × Bytes)) → Leaves (Below n) o → Leaves (Below (suc n)) (len_of o)
len_of-Leaves n none l = tt
len_of-Leaves n (some (count, rest)) l =
    len_wire-Leaves (suc n) _
      (Leaves-weaken (suc (length rest)) (suc n) _ (omega arith) (split_at-Leaves count rest))

-- The value of a field may take no byte of its own.
wire_after-Leaves :
    (kind : ℕ) (rest : Bytes) → Leaves (Below (suc (length rest))) (wire_after kind rest)
unfolding wire_after read_varint
wire_after-Leaves kind rest =
    let number : Leaves (Below (suc (length rest))) (read_varint_from rest 0 0) =
      Leaves-weaken (length rest) (suc (length rest)) _ (omega arith)
        (read_varint-Leaves rest 0 0) in
    if-Leaves _ (kind == 0) _ _ (varint_wire-Leaves _ _ number) (
      if-Leaves _ (kind == 1) _ _ (fixed_wire-Leaves _ fixed64 _ (split_at-Leaves 8 rest)) (
        if-Leaves _ (kind == 2) _ _ (len_of-Leaves (length rest) _ (read_varint-Leaves rest 0 0)) (
          if-Leaves _ (kind == 5) _ _ (fixed_wire-Leaves _ fixed32 _ (split_at-Leaves 4 rest)) tt)))

-- What a field leaves is shorter.
abbrev IsShorter : ℕ → Option (ℕ × Wire × Bytes) → Type 0
IsShorter n none = Unit
IsShorter n (some (field, wire, rest)) = length rest < n

with_field-IsShorter :
    (n field : ℕ) (o : Option (Wire × Bytes))
    → Leaves (Below n) o
    → IsShorter n (with_field field o)
with_field-IsShorter n field none l = tt
with_field-IsShorter n field (some (wire, rest)) l = l

after_tag-IsShorter :
    (n : ℕ) (o : Option (ℕ × Bytes)) → Leaves (Below n) o → IsShorter n (after_tag o)
after_tag-IsShorter n none l = tt
after_tag-IsShorter n (some (tag, rest)) l =
    with_field-IsShorter n (tag / 8) _
      (Leaves-weaken (suc (length rest)) n _ (omega arith) (wire_after-Leaves (tag % 8) rest))

next_field-IsShorter : (bytes : Bytes) → IsShorter (length bytes) (next_field bytes)
unfolding next_field read_varint
next_field-IsShorter bytes = after_tag-IsShorter (length bytes) _ (read_varint-Leaves bytes 0 0)

module _ {A : Type 0} (pick : Wire → Option A) (field : ℕ) where
  -- Two searches that agree on what is left agree.
  search-eq :
      (n : ℕ) (next next' : Bytes → Option A) (o : Option (ℕ × Wire × Bytes))
      → IsShorter n o
      → ((rest : Bytes) → length rest < n → next rest ≡ next' rest)
      → search pick field next o ≡ search pick field next' o
  search-eq n next next' none s h = refl
  search-eq n next next' (some (found, wire, rest)) s h =
      ap (or_rest pick field found (pick wire)) (h rest s)

  agree :
      (n m : ℕ) (bytes : Bytes)
      → length bytes ≤ n
      → length bytes ≤ m
      → find_field pick field n bytes ≡ find_field pick field m bytes
  unfolding find_field next_field read_varint read_varint_from
  agree zero zero bytes h k = refl
  agree zero (suc m) [] h k = refl
  agree zero (suc m) (byte ∷ bytes) h k = absurd (omega arith)
  agree (suc n) zero [] h k = refl
  agree (suc n) zero (byte ∷ bytes) h k = absurd (omega arith)
  agree (suc n) (suc m) bytes h k =
      search-eq (length bytes) _ _ _ (next_field-IsShorter bytes)
        (λ rest l. agree n m rest (omega arith) (omega arith))

-- The search for a field never runs out of rounds: as many rounds as there are bytes find what any
-- larger number of rounds finds.
pub find_field-enough :
    {A : Type 0} (pick : Wire → Option A) (field fuel : ℕ) (bytes : Bytes)
    → length bytes ≤ fuel
    → find_field pick field fuel bytes ≡ find_field pick field (length bytes) bytes
find_field-enough pick field fuel bytes h =
    agree pick field fuel (length bytes) bytes h (omega arith)
