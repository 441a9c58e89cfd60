-- ===== src/RpcId/Laws.antt =====
-- src/margo-id.h: an RPC id is made of its two fields and comes apart into them.
use mochi_margo.Base.{ℕ, ◌+◌, ◌*◌, ◌/◌, ◌%◌, ◌^◌, ◌<◌, ◌≡◌, List, arith}
use mochi_margo.Base.Bits.{bit_or_fields, bit_and_mask}
use mochi_margo.RpcId.{clear_low, demux_id, mux_id, gen_id}

clear_low_lem : (id : ℕ) → id < 2 ^ 64 → clear_low id ≡ id / 2 ^ 16 * 2 ^ 16
clear_low_lem id h = omega arith

mux_id_lem : (b p : ℕ) → b < 2 ^ 64 → p < 2 ^ 16 → mux_id b p ≡ b / 2 ^ 16 * 2 ^ 16 + p
unfolding mux_id
mux_id_lem b p hb hp = rw (clear_low_lem b hb) (bit_or_fields 16 (b / 2 ^ 16) p hp)

demux_id_base : (id : ℕ) → id < 2 ^ 64 → (demux_id id).0 ≡ id / 2 ^ 16 * 2 ^ 16 + 65535
unfolding demux_id
demux_id_base id h = rw (clear_low_lem id h) (bit_or_fields 16 (id / 2 ^ 16) 65535 (omega arith))

demux_id_provider : (id : ℕ) → (demux_id id).1 ≡ id % 2 ^ 16
unfolding demux_id
demux_id_provider id = omega (arith, bit_and_mask 16 id)

-- Putting a provider id into the base that `demux_id` finds, or into the id itself, gives an id
-- from which `demux_id` reads that provider id back, with the same base.
pub demux_id-mux_id :
    (id p : ℕ)
    → id < 2 ^ 64
    → p < 2 ^ 16
    → (demux_id (mux_id id p) ≡ ((demux_id id).0, p)) × (mux_id (demux_id id).0 p ≡ mux_id id p)
demux_id-mux_id id p hid hp =
    let m = mux_id_lem id p hid hp in
    let base : (demux_id (mux_id id p)).0 ≡ (demux_id id).0 =
      omega (arith, demux_id_base (mux_id id p) (omega arith), demux_id_base id hid) in
    let provider : (demux_id (mux_id id p)).1 ≡ p =
      omega (arith, demux_id_provider (mux_id id p)) in
    (
      ground arith,
      omega (
        arith,
        demux_id_base id hid,
        mux_id_lem (demux_id id).0 p (omega (arith, demux_id_base id hid)) hp,
      ),
    )

-- `mux_id` undoes `demux_id` on every 64-bit id.
pub mux_id-demux_id : (id : ℕ) → id < 2 ^ 64 → mux_id (demux_id id).0 (demux_id id).1 ≡ id
mux_id-demux_id id h =
    let base = demux_id_base id h in
    let provider = demux_id_provider id in
    omega (arith, mux_id_lem (demux_id id).0 (demux_id id).1 (omega arith) (omega arith))

gen_id_lem :
    (hash_jen : List ℕ → ℕ) (f : List ℕ) (p : ℕ)
    → hash_jen f < 2 ^ 32
    → p < 2 ^ 16
    → gen_id hash_jen f p ≡ hash_jen f * 2 ^ 32 + p
unfolding gen_id
gen_id_lem hash_jen f p hf hp =
    let whole : hash_jen f * 2 ^ 32 % 2 ^ 64 ≡ hash_jen f * 2 ^ 32 = omega arith in
    rw whole (bit_or_fields 32 (hash_jen f) p (omega arith))

-- An id generated from a name whose hash is an `unsigned` comes apart into a base id, which is the
-- hash over 32 bits that depend on nothing else, and the provider id that it was made with.
pub demux_id-gen_id :
    (hash_jen : List ℕ → ℕ) (f : List ℕ) (p : ℕ)
    → hash_jen f < 2 ^ 32
    → p < 2 ^ 16
    → demux_id (gen_id hash_jen f p) ≡ (hash_jen f * 2 ^ 32 + 65535, p)
demux_id-gen_id hash_jen f p hf hp =
    let whole = gen_id_lem hash_jen f p hf hp in
    let base = demux_id_base (gen_id hash_jen f p) (omega arith) in
    let provider = demux_id_provider (gen_id hash_jen f p) in
    let left : (demux_id (gen_id hash_jen f p)).0 ≡ hash_jen f * 2 ^ 32 + 65535 = omega arith in
    let right : (demux_id (gen_id hash_jen f p)).1 ≡ p = omega arith in ground arith

-- Two RPC ids generated from names and provider ids are equal only if the hashes of the names and
-- the provider ids are.
pub gen_id_injective :
    (hash_jen : List ℕ → ℕ) (f g : List ℕ) (p q : ℕ)
    → hash_jen f < 2 ^ 32
    → hash_jen g < 2 ^ 32
    → p < 2 ^ 16
    → q < 2 ^ 16
    → gen_id hash_jen f p ≡ gen_id hash_jen g q
    → (hash_jen f ≡ hash_jen g) × (p ≡ q)
gen_id_injective hash_jen f g p q hf hg hp hq e =
    omega (arith, gen_id_lem hash_jen f p hf hp, gen_id_lem hash_jen g q hg hq)
