-- ===== src/Base/Texts.antt =====
-- The characters of a text, as a list.
use Prim.Native.Char.{Char}
use Prim.Native.String.{String, [] as empty, ◌∷◌ as ◌∷ₜ◌}
use mathlib.Core.List.{List, [], ◌∷◌}

unfoldable pub chars : String → List Char
chars empty = []
chars (c ∷ₜ s) = c ∷ chars s
