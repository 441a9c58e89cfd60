-- ===== src/Base/Text.antt =====
-- Texts: equality as strcmp finds it, and their characters as numbers.
use Prim.Native.Char.{code}
use Prim.Native.Nat.{ℕ}
use Prim.Native.String.{String}
use text.Mathlib.Text
use text.Mathlib.TextEquality.{eq_iff}
use mathlib.Core.Bool.{Bool, true, false}
use mathlib.Core.List.{List, [], ◌∷◌}
use mathlib.Core.Path.{◌≡◌}
use mathlib.Core.Logic.{◌↔◌}
use mochi_margo.Base.Tests.{if◌then◌else◌}

-- strcmp(s, t) == 0
abbrev pub same_text : String → String → Bool
same_text s t = Text.◌==◌ s t

pub same_text_iff : (s t : String) → (same_text s t ≡ true) ↔ (s ≡ t)
same_text_iff s t = eq_iff s t

abbrev pub codes : String → List ℕ
codes String.[] = []
codes (String.◌∷◌ c s) = code c ∷ codes s

-- Whether a text is one of a list.
abbrev pub one_of : String → List String → Bool
one_of s [] = false
one_of s (t ∷ ts) = if same_text s t then true else one_of s ts
