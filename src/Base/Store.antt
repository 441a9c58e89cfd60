-- ===== src/Base/Store.antt =====
-- Memory as a function of addresses, and its update.
use Prim.Native.Nat.{ℕ}
use mathlib.Core.Path.{◌≡◌}
use mathlib.Core.Logic.{◌≢◌}
use native.Mathlib.Omega.{arith}
use mochi_margo.Base.Tests.{◌==◌, if◌then◌else◌}

-- The null pointer.
abbrev pub null : ℕ
null = 0

abbrev pub update {ℓ} : {A : Type ℓ} → (ℕ → A) → ℕ → A → ℕ → A
update f p v q = if p == q then v else f q

pub update_self {ℓ} : {A : Type ℓ} (f : ℕ → A) (p : ℕ) (v : A) → update f p v p ≡ v
update_self f p v = ground arith

pub update_ne {ℓ} : {A : Type ℓ} (f : ℕ → A) (p q : ℕ) (v : A) → p ≢ q → update f p v q ≡ f q
update_ne f p q v h = ground arith
