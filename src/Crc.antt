-- ===== src/Crc.antt =====
-- The table-driven CRC of the redundancy layer: src/c/util/rastacrc.c and `struct crc_options` of
-- src/include/rasta/config.h. `unsigned long` has 64 bits. Shifts are written for 8 ≤ width ≤ 64.
pub mod Reference
mod Fields
mod Reflect
mod Register
pub mod Table
mod Bytes
pub mod Calculate
mod Injective
pub mod Detection
pub mod Corruption
pub mod Options
use librasta.Base.{
  ℕ, zero, suc, ◌+◌, ◌-◌, ◌*◌, ◌/◌, ◌^◌, Bool, true, false, List, [], ◌∷◌, ◌==◌, if◌then◌else◌,
  get_or, set, replicate, u64, bit_and, bit_or, bit_xor,
}
use librasta.Packet.RedundancyCodec.{Crc}

pub record CrcOptions : Type 0 where
  pub width : ℕ
  pub polynom : ℕ
  pub initial : ℕ
  pub initial_optimized : ℕ
  pub refin : Bool
  pub refout : Bool
  pub final_xor : ℕ
  pub crc_mask : ℕ
  pub crc_high_bit : ℕ
  pub is_table_generated : Bool
  pub table : List ℕ

-- The rounds of the loop with `i` at `1 << (n - 1)` down to `1`.
unfoldable pub reflect_rounds : ℕ → ℕ → ℕ → ℕ → ℕ
reflect_rounds zero crc_in j crc_out = crc_out
reflect_rounds (suc n) crc_in j crc_out =
    reflect_rounds n crc_in (u64 (j * 2))
      (if bit_and crc_in (2 ^ n) == 0 then crc_out else bit_or crc_out j)

unfoldable pub reflect : ℕ → ℕ → ℕ
unfolding reflect_rounds
reflect crc_in n = reflect_rounds n crc_in 1 0

abbrev pub reflect_if : Bool → ℕ → ℕ → ℕ
reflect_if b crc n = if b then reflect crc n else crc

-- `((((unsigned long)1 << (width - 1)) - 1) << 1) | 1` and `(unsigned long)1 << (width - 1)`
abbrev pub mask_of : ℕ → ℕ
mask_of width = bit_or ((2 ^ (width - 1) - 1) * 2) 1

abbrev pub high_bit_of : ℕ → ℕ
high_bit_of width = 2 ^ (width - 1)

-- `table` is what the memory of the table held before.
abbrev pub crc_init_opt_a : CrcOptions
crc_init_opt_a = record {
  width = 0;
  polynom = 0;
  initial = 0;
  initial_optimized = 0;
  refin = false;
  refout = false;
  final_xor = 0;
  crc_mask = 0;
  crc_high_bit = 0;
  is_table_generated = false;
  table = replicate 256 0;
}

abbrev pub crc_init_opt_b : List ℕ → CrcOptions
crc_init_opt_b table = record {
  width = 32;
  polynom = 0xEE5B42FD;
  initial = 0;
  initial_optimized = 0;
  refin = false;
  refout = false;
  final_xor = 0;
  crc_mask = mask_of 32;
  crc_high_bit = high_bit_of 32;
  is_table_generated = false;
  table = table;
}

abbrev pub crc_init_opt_c : List ℕ → CrcOptions
crc_init_opt_c table = record {
  width = 32;
  polynom = 0x1EDC6F41;
  initial = 0x2A26F826;
  initial_optimized = 0xFFFFFFFF;
  refin = true;
  refout = true;
  final_xor = 0xFFFFFFFF;
  crc_mask = mask_of 32;
  crc_high_bit = high_bit_of 32;
  is_table_generated = false;
  table = table;
}

abbrev pub crc_init_opt_d : List ℕ → CrcOptions
crc_init_opt_d table = record {
  width = 16;
  polynom = 0x1021;
  initial = 0;
  initial_optimized = 0;
  refin = true;
  refout = true;
  final_xor = 0;
  crc_mask = mask_of 16;
  crc_high_bit = high_bit_of 16;
  is_table_generated = false;
  table = table;
}

abbrev pub crc_init_opt_e : List ℕ → CrcOptions
crc_init_opt_e table = record {
  width = 16;
  polynom = 0x8005;
  initial = 0;
  initial_optimized = 0;
  refin = true;
  refout = true;
  final_xor = 0;
  crc_mask = mask_of 16;
  crc_high_bit = high_bit_of 16;
  is_table_generated = false;
  table = table;
}

-- `bit = crc & high; crc <<= 1; if (bit) crc ^= polynom`
unfoldable pub shift_bit : CrcOptions → ℕ → ℕ
shift_bit o crc =
    if bit_and crc o.crc_high_bit == 0 then u64 (crc * 2) else bit_xor (u64 (crc * 2)) o.polynom

unfoldable pub shift_bits : ℕ → CrcOptions → ℕ → ℕ
shift_bits zero o crc = crc
shift_bits (suc n) o crc = shift_bits n o (shift_bit o crc)

-- The entry for the byte `i`.
unfoldable pub table_entry : CrcOptions → ℕ → ℕ
table_entry o i =
    let crc = shift_bits 8 o (u64 (reflect_if o.refin i 8 * 2 ^ (o.width - 8))) in
    bit_and (reflect_if o.refin crc o.width) o.crc_mask

-- The rounds of the loop from `i` on.
unfoldable pub fill_table : ℕ → ℕ → CrcOptions → List ℕ → List ℕ
fill_table zero i o table = table
fill_table (suc n) i o table = fill_table n (i + 1) o (set table i (table_entry o i))

unfoldable pub crc_generate_table : CrcOptions → CrcOptions
crc_generate_table o = record o { table = fill_table 256 0 o o.table; is_table_generated = true }

unfoldable pub forward_bytes : CrcOptions → ℕ → List ℕ → ℕ
forward_bytes o crc [] = crc
forward_bytes o crc (byte ∷ bytes) =
    forward_bytes o
      (bit_xor (u64 (crc * 2 ^ 8))
        (get_or o.table (bit_xor (bit_and (crc / 2 ^ (o.width - 8)) 0xff) byte) 0))
      bytes

unfoldable pub reflected_bytes : CrcOptions → ℕ → List ℕ → ℕ
reflected_bytes o crc [] = crc
reflected_bytes o crc (byte ∷ bytes) =
    reflected_bytes o (bit_xor (crc / 2 ^ 8) (get_or o.table (bit_xor (bit_and crc 0xff) byte) 0))
      bytes

-- `refout ^ refin`
abbrev pub differs : Bool → Bool → Bool
differs true true = false
differs true false = true
differs false true = true
differs false false = false

-- The rounds over the data, the table being there.
unfoldable pub crc_of_table : CrcOptions → List ℕ → ℕ
crc_of_table o bytes =
    let start = reflect_if o.refin o.initial_optimized o.width in
    let crc = if o.refin then reflected_bytes o start bytes else forward_bytes o start bytes in
    bit_and (bit_xor (reflect_if (differs o.refout o.refin) crc o.width) o.final_xor) o.crc_mask

-- `options` is written through: the table is kept for the next call.
unfoldable pub crc_calculate : CrcOptions → List ℕ → CrcOptions × ℕ
crc_calculate o bytes =
    let ready = if o.is_table_generated then o else crc_generate_table o in
    (ready, crc_of_table ready bytes)

-- What the redundancy layer uses of the options of its channel.
abbrev pub crc_of_options : CrcOptions → Crc
crc_of_options o = record { width = o.width; calculate = λ bytes. (crc_calculate o bytes).1 }
