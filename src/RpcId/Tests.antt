-- ===== src/RpcId/Tests.antt =====
-- src/margo-id.h: ids at concrete fields.
use mochi_margo.Base.{ℕ, ◌≡◌, List, [], ◌∷◌, refl}
use mochi_margo.RpcId.{demux_id}

abbrev hash_jen : List ℕ → ℕ
hash_jen [] = 0
hash_jen (c ∷ name) = c

demux_test : demux_id 0x1234_5678_0000_0007 ≡ (0x1234_5678_0000_ffff, 7)
unfolding demux_id
demux_test = refl
