-- ===== src/Base/Words.antt =====
-- Unsigned machine words, as numbers below the modulus, with the wrap-around written out.
use Prim.Native.Nat.{ℕ, ◌+◌, ◌-◌, ◌*◌, ◌%◌, ◌^◌}

abbrev pub u64_mod : ℕ
u64_mod = 2 ^ 64

abbrev pub u64_max : ℕ
u64_max = u64_mod - 1

-- Addition, subtraction and multiplication of `size_t`, `hg_size_t` and `uint64_t`.
abbrev pub add_u64 : ℕ → ℕ → ℕ
add_u64 a b = (a + b) % 2 ^ 64

abbrev pub sub_u64 : ℕ → ℕ → ℕ
sub_u64 a b = (a + 2 ^ 64 - b) % 2 ^ 64

abbrev pub mul_u64 : ℕ → ℕ → ℕ
mul_u64 a b = a * b % 2 ^ 64
