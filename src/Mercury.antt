-- ===== src/Mercury.antt =====
-- Return codes of Mercury (`hg_return_t`): those that margo names itself, and any other.
use mochi_margo.Base.{ℕ, Bool, true, false}

pub data HgReturn : Type 0 where
  success nomem_error invalid_arg other_error noentry permission : HgReturn
  other_code : ℕ → HgReturn

abbrev pub is_success : HgReturn → Bool
is_success success = true
is_success _ = false
