-- ===== src/Cli/Text.antt =====
-- Texts as lists of bytes, for the `std::string` of cli_server/.
use Prim.Native.String.{String}
use Prim.Native.Char.{code}
use foo_dsp_bfir.Base.{ℕ, Bool, true, false, List, [], ◌∷◌, ◌==◌, ◌&&◌, ◌<◌, ◌≢◌}

abbrev pub Text : Type 0
Text = List ℕ

-- The code points of a literal.
abbrev pub codes : String → Text
codes String.[] = []
codes (String.◌∷◌ c s) = code c ∷ codes s

infix 50 ◌==ₜ◌
abbrev pub ◌==ₜ◌ : Text → Text → Bool
[] ==ₜ [] = true
[] ==ₜ (y ∷ ys) = false
(x ∷ xs) ==ₜ [] = false
(x ∷ xs) ==ₜ (y ∷ ys) = (x == y) && (xs ==ₜ ys)

abbrev pub is_empty : Text → Bool
is_empty [] = true
is_empty (x ∷ xs) = false

-- The bytes that are characters to the parser and do not end a command.
abbrev pub AllPlain : Text → Type 0
AllPlain [] = Unit
AllPlain (x ∷ xs) = (x < 128) × (x ≢ 13) × AllPlain xs

-- Likewise, with no space.
abbrev pub AllWord : Text → Type 0
AllWord [] = Unit
AllWord (x ∷ xs) = (x < 128) × (x ≢ 13) × (x ≢ 32) × AllWord xs
