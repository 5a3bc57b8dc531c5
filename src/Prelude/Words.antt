-- ===== src/Prelude/Words.antt =====
-- Machine words: a w-bit unsigned integer is a number below 2 ^ w, and arithmetic wraps.
use Prim.Native.Nat.{ℕ, ◌+◌, ◌-◌, ◌%◌}

-- uint8_t, uint16_t, uint32_t, uint64_t
abbrev pub u8_mod : ℕ
u8_mod = 256

abbrev pub u16_mod : ℕ
u16_mod = 65536

abbrev pub u32_mod : ℕ
u32_mod = 4294967296

abbrev pub u64_mod : ℕ
u64_mod = 18446744073709551616

-- std::numeric_limits<u64>::max()
abbrev pub u64_max : ℕ
u64_max = 18446744073709551615

abbrev pub add_u64 : ℕ → ℕ → ℕ
add_u64 a b = (a + b) % u64_mod

abbrev pub sub_u64 : ℕ → ℕ → ℕ
sub_u64 a b = (a + u64_mod - b) % u64_mod
