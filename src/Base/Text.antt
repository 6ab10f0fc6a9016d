-- ===== src/Base/Text.antt =====
-- C strings as bytes: what `strstr` does.
use Prim.Native.Nat.{ℕ}
use Prim.Native.Char.{code}
use Prim.Native.String.{String}
use mathlib.Core.Bool.{Bool, true, false, ◌&&◌, ◌||◌}
use mathlib.Core.List.{List, [], ◌∷◌}
use dolphin_core.Base.Tests.{◌==◌, if◌then◌else◌}

-- The bytes of an ASCII literal.
abbrev pub codes : String → List ℕ
codes String.[] = []
codes (String.◌∷◌ c s) = code c ∷ codes s

-- The string that starts at an array: the bytes before the first NUL.
unfoldable pub c_string : List ℕ → List ℕ
c_string [] = []
c_string (x ∷ xs) = if x == 0 then [] else x ∷ c_string xs

unfoldable pub starts_with : List ℕ → List ℕ → Bool
starts_with xs [] = true
starts_with [] (y ∷ ys) = false
starts_with (x ∷ xs) (y ∷ ys) = x == y && starts_with xs ys

-- `strstr(xs, ys) != NULL`
unfoldable pub contains : List ℕ → List ℕ → Bool
unfolding starts_with
contains [] ys = starts_with [] ys
contains (x ∷ xs) ys = starts_with (x ∷ xs) ys || contains xs ys
