-- ===== src/RpcId.antt =====
-- src/margo-id.h: the two fields of a 64-bit RPC id. The low 16 bits are the provider id, the bits
-- above are the hash of the RPC's name. `HASH_JEN` of src/uthash.h is a parameter.
pub mod Laws
mod Tests
use Prim.Native.Nat.{bit_and, bit_or}
use mochi_margo.Base.{ℕ, ◌*◌, ◌-◌, ◌/◌, ◌%◌, ◌^◌, List}

-- `__MARGO_PROVIDER_ID_SIZE * 8`, where `hg_id_t` has 8 bytes.
abbrev pub provider_bits : ℕ
provider_bits = 8 / 4 * 8

-- `MARGO_MAX_PROVIDER_ID`
abbrev pub max_provider_id : ℕ
max_provider_id = 2 ^ provider_bits - 1

-- `MARGO_DEFAULT_PROVIDER_ID`
abbrev pub default_provider_id : ℕ
default_provider_id = 0xffff

-- `(id >> 16) << 16` on 64 bits.
abbrev pub clear_low : ℕ → ℕ
clear_low id = id / 2 ^ provider_bits * 2 ^ provider_bits % 2 ^ 64

-- The pair is `*base_id` and `*provider_id`; the sum into the `uint16_t` starts from 0.
unfoldable pub demux_id : ℕ → ℕ × ℕ
demux_id id = (bit_or (clear_low id) max_provider_id, bit_and id max_provider_id % 2 ^ 16)

unfoldable pub mux_id : ℕ → ℕ → ℕ
mux_id base_id provider_id = bit_or (clear_low base_id) provider_id

-- The version for Mercury 2.3.0 and above; `hash_jen` gives an `unsigned`.
unfoldable pub gen_id : (List ℕ → ℕ) → List ℕ → ℕ → ℕ
gen_id hash_jen func_name provider_id = bit_or (hash_jen func_name * 2 ^ 32 % 2 ^ 64) provider_id
