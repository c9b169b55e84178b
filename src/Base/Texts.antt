-- ===== src/Base/Texts.antt =====
-- Texts: equality, concatenation for template literals.
use Prim.Native.String.{String}
use Prim.Native.String
use mathlib.Core.Bool.{Bool}
use text.Mathlib.Text.{◌==◌ as str_eq}

infix 50 ◌===◌
abbrev pub ◌===◌ : String → String → Bool
s === t = str_eq s t

infixr 65 ◌&◌
-- The concatenation of two texts, as in a template literal.
abbrev pub ◌&◌ : String → String → String
s & t = String.◌++◌ s t
