-- ===== src/Prelude/Text.antt =====
-- C strings as lists of bytes, without the closing NUL. The bytes of a string are not 0.
use Prim.Native.Nat.{ℕ, zero, suc}
use Prim.Native.Char.{code}
use Prim.Native.String.{String}
use mathlib.Core.Bool.{Bool, true, false, ◌&&◌, ◌||◌}
use mathlib.Core.List.{List, [], ◌∷◌}
use ixland.Prelude.Tests.{◌==◌}

abbrev pub Bytes : Type 0
Bytes = List ℕ

-- The bytes of an ASCII text.
abbrev pub codes : String → Bytes
codes String.[] = []
codes (String.◌∷◌ c s) = code c ∷ codes s

-- `strcmp(a, b) == 0`.
abbrev pub same_bytes : Bytes → Bytes → Bool
same_bytes [] [] = true
same_bytes [] (b ∷ t) = false
same_bytes (a ∷ s) [] = false
same_bytes (a ∷ s) (b ∷ t) = (a == b) && same_bytes s t

-- `strncmp(s, prefix, strlen(prefix)) == 0`.
abbrev pub starts_with : Bytes → Bytes → Bool
starts_with [] s = true
starts_with (a ∷ prefix) [] = false
starts_with (a ∷ prefix) (b ∷ s) = (a == b) && starts_with prefix s

-- `strstr(s, part) != NULL`.
abbrev pub contains : Bytes → Bytes → Bool
contains part [] = starts_with part []
contains part (b ∷ s) = starts_with part (b ∷ s) || contains part s

abbrev pub drop : ℕ → Bytes → Bytes
drop zero s = s
drop (suc n) [] = []
drop (suc n) (b ∷ s) = drop n s

-- The first `n` bytes, as `strncpy` and a closing NUL leave them.
abbrev pub take : ℕ → Bytes → Bytes
take zero s = []
take (suc n) [] = []
take (suc n) (b ∷ s) = b ∷ take n s

-- `s` backwards, before `after`.
abbrev pub reverse_onto : Bytes → Bytes → Bytes
reverse_onto [] after = after
reverse_onto (b ∷ s) after = reverse_onto s (b ∷ after)
