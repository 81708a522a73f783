-- ===== src/Path/Dots.antt =====
-- path.c, __ixland_path_normalize: slashes, "." and ".." in one pass. The C code reads and writes one
-- buffer; what is written stands before what is read (Dots.Ends), so that the bytes still to read and
-- the bytes written, last first, are lists of their own.
pub mod Ends
pub mod Names
pub mod Rounds
pub mod Resolved
use ixland.Prelude.{
  ℕ, zero, suc, Bool, true, false, ◌&&◌, Option, none, some, List, [], ◌∷◌, ◌==◌, if◌then◌else◌,
  length,
}
use ixland.Prelude.Text.{Bytes, reverse_onto}
use ixland.Path.{slash, dot}

unfoldable pub skip_slashes : Bytes → Bytes
skip_slashes [] = []
skip_slashes (c ∷ s) = let rest = skip_slashes s in if c == slash then rest else c ∷ s

-- The next byte is a slash or the closing NUL.
abbrev pub is_end : Bytes → Bool
is_end [] = true
is_end (c ∷ s) = c == slash

abbrev pub is_single : Bytes → Bool
is_single [] = false
is_single (c ∷ s) = (c == dot) && is_end s

abbrev pub is_double : Bytes → Bool
is_double [] = false
is_double (c ∷ []) = false
is_double (c ∷ d ∷ s) = (c == dot) && ((d == dot) && is_end s)

abbrev pub rest_of : Bytes → Bytes
rest_of [] = []
rest_of (c ∷ s) = s

-- Back to the previous slash, which goes too, except at the start of the buffer, whose byte stays.
unfoldable pub back : ℕ → Bytes → Bytes
back at [] = at ∷ []
back at (b ∷ before) = let further = back b before in if at == slash then b ∷ before else further

abbrev pub up : Bytes → Bytes
up [] = []
up (a ∷ []) = a ∷ []
up (a ∷ b ∷ out) = back a (b ∷ out)

abbrev pub one_slash : Bytes → Bytes
one_slash [] = []
one_slash (a ∷ out) = if a == slash then a ∷ out else slash ∷ a ∷ out

-- What follows a run of slashes.
abbrev pub after_slash : Bytes → Bytes → Bytes × Bytes
after_slash src out =
    if is_single src
    then (rest_of src, out)
    else if is_double src
    then (rest_of (rest_of src), up out)
    else (src, one_slash out)

abbrev pub round : ℕ → Bytes → Bytes → Bytes × Bytes
round c src out = if c == slash then after_slash (skip_slashes src) out else (src, c ∷ out)

-- `none`: the fuel is used up.
unfoldable pub loop : ℕ → Bytes → Bytes → Option Bytes
loop fuel [] out = some out
loop zero (c ∷ src) out = none
loop (suc fuel) (c ∷ src) out = loop fuel (round c src out).0 (round c src out).1

-- The bytes to read and those written when the loop begins.
unfoldable pub start : Bytes → Bytes × Bytes
start [] = ([], [])
start (c ∷ s) =
    if c == slash
    then (
      if is_single (skip_slashes s)
          then skip_slashes (rest_of (skip_slashes s))
          else skip_slashes s,
      slash ∷ [],
    )
    else (c ∷ s, [])

abbrev pub finish : Bytes → Bytes
finish [] = []
finish (a ∷ []) = a ∷ []
finish (a ∷ b ∷ out) = if a == slash then b ∷ out else a ∷ b ∷ out

-- The bytes written, in order, once the loop is over.
abbrev pub written : Option Bytes → Option Bytes
written none = none
written (some out) = some (reverse_onto (finish out) [])

unfoldable pub normalize : Bytes → Option Bytes
normalize s = written (loop (length s) (start s).0 (start s).1)
