-- ===== src/Base/Texts.antt =====
-- Python's `str` as the list of its code points, with equality and the size of its UTF-8 encoding.
use Prim.Native.Nat.{ℕ, ◌+◌, ◌≤◌}
use Prim.Native.Char.{code}
use Prim.Native.String.{String}
use mathlib.Core.Path.{◌≡◌, refl, sym, ◌∙◌}
use mathlib.Core.Logic.{◌↔◌}
use mathlib.Core.Bool.{Bool, true, false, ◌&&◌}
use mathlib.Core.List.{List, [], ◌∷◌}
use native.Mathlib.Omega.{arith}
use encrypt_chat_app.Base.Tests.{ltb, ◌==◌, if◌then◌else◌}
use encrypt_chat_app.Base.Lists.{length}

abbrev pub Text : Type 0
Text = List ℕ

-- A literal of the source.
abbrev pub codes : String → Text
codes String.[] = []
codes (String.◌∷◌ c s) = code c ∷ codes s

unfoldable pub text_eq : Text → Text → Bool
text_eq [] [] = true
text_eq (a ∷ s) (b ∷ t) = a == b && text_eq s t
text_eq _ _ = false

pub text_eq_iff : (s t : Text) → (text_eq s t ≡ true) ↔ (s ≡ t)
unfolding text_eq
text_eq_iff [] [] = ground arith
text_eq_iff [] (b ∷ t) = ground arith
text_eq_iff (a ∷ s) [] = ground arith
text_eq_iff (a ∷ s) (b ∷ t) = ground (arith, text_eq_iff s t)

pub text_eq_refl : (s : Text) → text_eq s s ≡ true
text_eq_refl s = (text_eq_iff s s).1 refl

pub text_neq : (s t : Text) → text_eq s t ≡ false → s ≡ t → ⊥
text_neq s t h e = cc (sym ((text_eq_iff s t).1 e) ∙ h)

-- The bytes that UTF-8 takes for one code point, and for a text: `len(s.encode("utf-8"))`.
abbrev pub utf8_size : ℕ → ℕ
utf8_size c = if ltb c 0x80 then 1 else if ltb c 0x800 then 2 else if ltb c 0x10000 then 3 else 4

abbrev pub utf8_length : Text → ℕ
utf8_length [] = 0
utf8_length (c ∷ s) = utf8_size c + utf8_length s

-- A text never has more characters than bytes.
pub length-le-utf8_length : (s : Text) → length s ≤ utf8_length s
length-le-utf8_length [] = omega arith
length-le-utf8_length (c ∷ s) = ground (arith, length-le-utf8_length s)
