-- ===== src/Prelude/Cstr.antt =====
-- The C string functions that several files of main/ call.
use Prim.Native.Nat.{ℕ}
use mathlib.Core.Bool.{Bool, true, false}
use mathlib.Core.List.{List, [], ◌∷◌}
use mathlib.Core.Option.{Option, none, some}
use gdo_blaq_homekit.Prelude.Tests.{◌==◌, if◌then◌else◌}

-- The text that a buffer of these bytes holds.
unfoldable pub until_nul : List ℕ → List ℕ
until_nul [] = []
until_nul (c ∷ s) = if c == 0 then [] else c ∷ until_nul s

-- The bytes after the prefix, if it is one.
unfoldable pub strip : List ℕ → List ℕ → Option (List ℕ)
strip [] s = some s
strip (k ∷ key) [] = none
strip (k ∷ key) (c ∷ s) = if k == c then strip key s else none

unfoldable pub or_else : Option (List ℕ) → Option (List ℕ) → Option (List ℕ)
or_else none b = b
or_else (some a) b = some a

-- `strstr(s, needle)`, and the bytes after the needle.
unfoldable pub strstr : List ℕ → List ℕ → Option (List ℕ)
strstr needle [] = strip needle []
strstr needle (c ∷ s) = or_else (strip needle (c ∷ s)) (strstr needle s)

abbrev pub found : Option (List ℕ) → Bool
found none = false
found (some s) = true
