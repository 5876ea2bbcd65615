-- ===== src/Collectors/Protobuf.antt =====
-- The reader of src-tauri/src/infrastructure/collectors/antigravity/protobuf_usage.rs.
pub mod Varint
pub mod Fuel
pub mod Metadata
pub mod Rows
use burnly.Prelude.{
  ℕ, zero, suc, ◌+◌, ◌-◌, ◌*◌, ◌/◌, ◌%◌, ◌^◌, Bool, true, false, Option, none, some, List, [], ◌∷◌,
  length, ltb, leb, ◌==◌, if◌then◌else◌,
}

-- What is left of the buffer from `pos` on: a `u8` is a number below 256.
abbrev pub Bytes : Type 0
Bytes = List ℕ

-- `Wire`
pub data Wire : Type 0 where
  varint : ℕ → Wire
  len : Bytes → Wire
  fixed64 fixed32 : Wire

-- The loop of `read_varint`, over `result` and `shift`; the bits of `byte & 0x7f` that are shifted
-- out of the `u64` are lost, and the others are not set in `result`.
unfoldable pub read_varint_from : Bytes → ℕ → ℕ → Option (ℕ × Bytes)
read_varint_from [] result shift = none
read_varint_from (byte ∷ rest) result shift =
    let result' = result + (byte % 128 * 2 ^ shift) % 18446744073709551616 in
    let more = read_varint_from rest result' (shift + 7) in
    if ltb (byte % 256) 128 then some (result', rest) else if leb 64 (shift + 7) then none else more

unfoldable pub read_varint : Bytes → Option (ℕ × Bytes)
read_varint bytes = read_varint_from bytes 0 0

-- `self.pos.checked_add(n).filter(|pos| *pos <= self.buf.len())`, and the bytes in between.
abbrev pub cons_front : ℕ → Option (Bytes × Bytes) → Option (Bytes × Bytes)
cons_front byte none = none
cons_front byte (some (front, back)) = some (byte ∷ front, back)

unfoldable pub split_at : ℕ → Bytes → Option (Bytes × Bytes)
split_at zero bytes = some ([], bytes)
split_at (suc n) [] = none
split_at (suc n) (byte ∷ bytes) = cons_front byte (split_at n bytes)

-- The four kinds of `match tag & 0x7`, each with the bytes after the tag.
abbrev pub varint_wire : Option (ℕ × Bytes) → Option (Wire × Bytes)
varint_wire none = none
varint_wire (some (value, rest)) = some (varint value, rest)

abbrev pub fixed_wire : Wire → Option (Bytes × Bytes) → Option (Wire × Bytes)
fixed_wire wire none = none
fixed_wire wire (some (_, rest)) = some (wire, rest)

abbrev pub len_wire : Option (Bytes × Bytes) → Option (Wire × Bytes)
len_wire none = none
len_wire (some (bytes, rest)) = some (len bytes, rest)

abbrev pub len_of : Option (ℕ × Bytes) → Option (Wire × Bytes)
len_of none = none
len_of (some (n, rest)) = len_wire (split_at n rest)

unfoldable pub wire_after : ℕ → Bytes → Option (Wire × Bytes)
wire_after kind rest =
    if kind == 0
    then varint_wire (read_varint rest)
    else if kind == 1
    then fixed_wire fixed64 (split_at 8 rest)
    else if kind == 2
    then len_of (read_varint rest)
    else if kind == 5
    then fixed_wire fixed32 (split_at 4 rest)
    else none

-- A field number, its value, and the bytes after it.
abbrev pub with_field : ℕ → Option (Wire × Bytes) → Option (ℕ × Wire × Bytes)
with_field field none = none
with_field field (some (wire, rest)) = some (field, wire, rest)

abbrev pub after_tag : Option (ℕ × Bytes) → Option (ℕ × Wire × Bytes)
after_tag none = none
after_tag (some (tag, rest)) = with_field (tag / 8) (wire_after (tag % 8) rest)

-- `next_field`; at the end of the buffer `read_varint` finds no byte either.
unfoldable pub next_field : Bytes → Option (ℕ × Wire × Bytes)
next_field bytes = after_tag (read_varint bytes)

-- The loop of `message_field` and `varint_field`: the first field with this number and a value
-- of the kind that is picked. Each round takes at least one byte.
module _ {A : Type 0} (pick : Wire → Option A) (field : ℕ) where
  abbrev pub or_rest : ℕ → Option A → Option A → Option A
  or_rest found none rest = rest
  or_rest found (some a) rest = if found == field then some a else rest

  -- One round, with the search of the rest.
  abbrev pub search : (Bytes → Option A) → Option (ℕ × Wire × Bytes) → Option A
  search next none = none
  search next (some (found, wire, rest)) = or_rest found (pick wire) (next rest)

  unfoldable pub find_field : ℕ → Bytes → Option A
  find_field zero bytes = none
  find_field (suc fuel) bytes = search (find_field fuel) (next_field bytes)

abbrev pub pick_len : Wire → Option Bytes
pick_len (len bytes) = some bytes
pick_len (varint _) = none
pick_len fixed64 = none
pick_len fixed32 = none

abbrev pub pick_varint : Wire → Option ℕ
pick_varint (varint value) = some value
pick_varint (len _) = none
pick_varint fixed64 = none
pick_varint fixed32 = none

unfoldable pub message_field : Bytes → ℕ → Option Bytes
message_field blob field = find_field pick_len field (length blob) blob

unfoldable pub varint_field : Bytes → ℕ → Option ℕ
varint_field blob field = find_field pick_varint field (length blob) blob
