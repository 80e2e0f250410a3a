-- ===== src/Crc/Reference.antt =====
-- The textbook CRC that `crc_calculate` is compared with: a shift register of `w` bits that takes
-- the message bit by bit and adds the polynomial whenever a one leaves it.
use librasta.Base.{
  ℕ, zero, suc, ◌+◌, ◌-◌, ◌*◌, ◌/◌, ◌%◌, ◌^◌, Bool, List, [], ◌∷◌, ◌++◌, if◌then◌else◌, bit_xor,
  ◌==◌,
}
use librasta.Crc.{CrcOptions}

-- The `k` low bits in the opposite order.
unfoldable pub mirror : ℕ → ℕ → ℕ
mirror zero x = 0
mirror (suc k) x = x % 2 * 2 ^ k + mirror k (x / 2)

-- The `k` low bits of a number, the highest first and the lowest first.
unfoldable pub bits_down : ℕ → ℕ → List ℕ
bits_down zero x = []
bits_down (suc k) x = x / 2 ^ k % 2 ∷ bits_down k x

unfoldable pub bits_up : ℕ → ℕ → List ℕ
bits_up zero x = []
bits_up (suc k) x = x % 2 ∷ bits_up k (x / 2)

-- The bits of a message in the order in which they are sent.
unfoldable pub message_bits : Bool → List ℕ → List ℕ
message_bits refin [] = []
message_bits refin (b ∷ bytes) =
    (if refin then bits_up 8 b else bits_down 8 b) ++ message_bits refin bytes

-- One message bit `m` meets the bit that leaves the register `s`.
unfoldable pub clock : ℕ → ℕ → ℕ → ℕ → ℕ
clock w polynom s m =
    if (s / 2 ^ (w - 1) + m) % 2 == 0 then s * 2 % 2 ^ w else bit_xor (s * 2 % 2 ^ w) polynom

unfoldable pub divide : ℕ → ℕ → ℕ → List ℕ → ℕ
divide w polynom s [] = s
divide w polynom s (m ∷ bits) = divide w polynom (clock w polynom s m) bits

unfoldable pub crc_reference : CrcOptions → List ℕ → ℕ
crc_reference o bytes =
    let s = divide o.width o.polynom o.initial_optimized (message_bits o.refin bytes) in
    bit_xor (if o.refout then mirror o.width s else s) o.final_xor
