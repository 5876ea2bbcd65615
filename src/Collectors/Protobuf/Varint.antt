-- ===== src/Collectors/Protobuf/Varint.antt =====
-- `read_varint` against an encoder of base-128 numbers, that of the tests of protobuf_usage.rs.
use native.Mathlib.Nat.{div-add-mod}
use native.Mathlib.Numerals.{towards_suc}
use burnly.Prelude.{
  ℕ, zero, suc, ◌+◌, ◌*◌, ◌/◌, ◌%◌, ◌^◌, ◌<◌, ◌≡◌, refl, ap, ◌∙◌, Bool-cases, ==_iff, inl, inr,
  some, [], ◌∷◌, ◌++◌, arith, if◌then◌else◌, ◌==◌,
}
use burnly.Collectors.Protobuf.{Bytes, read_varint, read_varint_from}

-- `encode_varint`, of a number with at most `suc n` groups of seven bits.
unfoldable pub encode_varint : ℕ → ℕ → Bytes
encode_varint zero value = value % 128 ∷ []
encode_varint (suc n) value =
    let more = encode_varint n (value / 128) in
    if value / 128 == 0 then value % 128 ∷ [] else (value % 128 + 128) ∷ more

abbrev two_64 : ℕ
two_64 = 18446744073709551616

-- The bits of a byte that a round adds, when the number fits.
group-eq :
    (byte g result shift : ℕ)
    → byte % 128 ≡ g
    → result + g * 2 ^ shift < two_64
    → (byte % 128 * 2 ^ shift) % 18446744073709551616 ≡ g * 2 ^ shift
group-eq byte g result shift e fits = rw e (fits_mod (g * 2 ^ shift) (omega arith))
  where
    fits_mod : (x : ℕ) → x < two_64 → x % 18446744073709551616 ≡ x
    fits_mod x h = omega arith

module _ (g result shift : ℕ) (rest : Bytes) where
  -- A byte without the top bit ends the number, and one with it does not.
  last-read :
      g < 128
      → result + g * 2 ^ shift < two_64
      → read_varint_from (g ∷ rest) result shift ≡ some (result + g * 2 ^ shift, rest)
  unfolding read_varint_from
  last-read small fits = ground (arith, group-eq g g result shift (omega arith) fits)

  more-read :
      g < 128
      → result + g * 2 ^ shift < two_64
      → shift + 7 < 64
      → read_varint_from ((g + 128) ∷ rest) result shift
        ≡ read_varint_from rest (result + g * 2 ^ shift) (shift + 7)
  unfolding read_varint_from
  more-read small fits low = ground (arith, group-eq (g + 128) g result shift (omega arith) fits)

shift_seven : (value shift : ℕ) → value * 2 ^ (shift + 7) ≡ value * (128 * 2 ^ shift)
shift_seven value shift = ap (λ (t : ℕ). value * t) (simp towards_suc (omega arith))

-- The lowest group and the others.
groups-eq :
    (value shift : ℕ) → value % 128 * 2 ^ shift + value / 128 * 2 ^ (shift + 7) ≡ value * 2 ^ shift
groups-eq value shift =
    omega (
      arith,
      ap (λ (t : ℕ). t * 2 ^ shift) (div-add-mod value 128),
      shift_seven (value / 128) shift,
    )

-- One byte holds a number below 128.
one_byte :
    (value result shift : ℕ) (rest : Bytes)
    → value < 128
    → result + value * 2 ^ shift < two_64
    → read_varint_from (value % 128 ∷ rest) result shift ≡ some (result + value * 2 ^ shift, rest)
one_byte value result shift rest small fits =
    let e : value % 128 ≡ value = omega arith in rw e (last-read value result shift rest small fits)

power_suc : (n : ℕ) → 128 ^ suc n ≡ 128 * 128 ^ n
power_suc n = omega arith

read-encoded :
    (n value result shift : ℕ) (rest : Bytes)
    → value < 128 ^ suc n
    → shift + 7 * n < 64
    → result + value * 2 ^ shift < two_64
    → read_varint_from (encode_varint n value ++ rest) result shift
      ≡ some (result + value * 2 ^ shift, rest)
unfolding encode_varint
read-encoded zero value result shift rest small low fits =
    one_byte value result shift rest (omega (arith, power_suc 0)) fits
read-encoded (suc n) value result shift rest small low fits = elim (Bool-cases (value / 128 == 0)) [
  | inl e ↦
      rw e (one_byte value result shift rest (omega (arith, (==_iff (value / 128) 0).0 e)) fits)
  | inr e ↦ rw e (
      more-read (value % 128) result shift (encode_varint n (value / 128) ++ rest) (omega arith)
        (omega (arith, groups-eq value shift)) (omega arith)
      ∙ read-encoded n (value / 128) (result + value % 128 * 2 ^ shift) (shift + 7) rest
          (omega (arith, power_suc (suc n))) (omega arith) (omega (arith, groups-eq value shift))
      ∙ ap (λ (t : ℕ). some (t, rest)) (omega (arith, groups-eq value shift)))
]

-- Reading gives back any `u64` that was encoded in groups of seven bits, and leaves the bytes after
-- it.
pub read_varint-encode_varint :
    (value : ℕ) (rest : Bytes)
    → value < 18446744073709551616
    → read_varint (encode_varint 9 value ++ rest) ≡ some (value, rest)
unfolding read_varint
read_varint-encode_varint value rest fits =
    let power : 128 ^ 10 ≡ 1180591620717411303424 = refl in
    read-encoded 9 value 0 0 rest (omega (arith, power)) (omega arith) (omega arith)
    ∙ ap (λ (t : ℕ). some (t, rest)) (omega arith)
