-- ===== src/Base/Words.antt =====
-- Fixed-width unsigned arithmetic and little-endian byte order (util/rastautil.c).
use Prim.Native.Nat.{ℕ, ◌+◌, ◌-◌, ◌*◌, ◌/◌, ◌%◌, ◌^◌, ◌<◌}
use mathlib.Core.Path.{◌≡◌}
use mathlib.Core.List.{List, [], ◌∷◌}
use native.Mathlib.Omega.{arith}
use librasta.Base.Lists.{get_or}

abbrev pub u16 : ℕ → ℕ
u16 n = n % 2 ^ 16

abbrev pub u32 : ℕ → ℕ
u32 n = n % 2 ^ 32

abbrev pub u64 : ℕ → ℕ
u64 n = n % 2 ^ 64

-- `a - b` in `uint32_t` and in `unsigned long`; 2 ^ w is added first since `-` stops at 0.
abbrev pub sub32 : ℕ → ℕ → ℕ
sub32 a b = (a + 2 ^ 32 - b) % 2 ^ 32

abbrev pub sub64 : ℕ → ℕ → ℕ
sub64 a b = (a + 2 ^ 64 - b) % 2 ^ 64

-- `hostShortTole`: the two bytes of a `uint16_t`, lowest first.
abbrev pub host_short_to_le : ℕ → List ℕ
host_short_to_le v = v % 256 ∷ v / 256 % 256 ∷ []

-- `hostLongToLe`: the four bytes of a `uint32_t`, lowest first.
abbrev pub host_long_to_le : ℕ → List ℕ
host_long_to_le v = v % 256 ∷ v / 256 % 256 ∷ v / 65536 % 256 ∷ v / 16777216 % 256 ∷ []

-- `leShortToHost(&bytes[o])`
abbrev pub le_short_to_host : List ℕ → ℕ → ℕ
le_short_to_host bytes o = get_or bytes o 0 + 256 * get_or bytes (o + 1) 0

-- `leLongToHost(&bytes[o])`
abbrev pub le_long_to_host : List ℕ → ℕ → ℕ
le_long_to_host bytes o =
    get_or bytes o 0
    + 256 * get_or bytes (o + 1) 0
    + 65536 * get_or bytes (o + 2) 0
    + 16777216 * get_or bytes (o + 3) 0

pub le_short_value : (v : ℕ) → v < 2 ^ 16 → v % 256 + 256 * (v / 256 % 256) ≡ v
le_short_value v h = omega arith

pub le_long_value :
    (v : ℕ)
    → v < 2 ^ 32
    → v % 256 + 256 * (v / 256 % 256) + 65536 * (v / 65536 % 256) + 16777216 * (v / 16777216 % 256)
      ≡ v
le_long_value v h = omega arith
