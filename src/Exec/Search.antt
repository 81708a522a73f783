-- ===== src/Exec/Search.antt =====
-- exec.c, ixland_execvp: the search along PATH.
use ixland.Prelude.{◌≡◌, Bool, true, false, ◌&&◌, List, [], ◌∷◌, ◌++◌, ltb, length}
use ixland.Prelude.Text.{Bytes}
use ixland.Path.{slash, max_path}

-- The file in the directory has a path that fits the buffer and can be run.
abbrev has_program : (Bytes → Bool) → Bytes → Bytes → Bool
has_program runnable file dir =
    ltb (length (dir ++ slash ∷ file)) max_path && runnable (dir ++ slash ∷ file)

-- None of the directories has the program.
abbrev pub NoneHas : (Bytes → Bool) → Bytes → List Bytes → Type 0
NoneHas runnable file [] = Unit
NoneHas runnable file (dir ∷ dirs) =
    (has_program runnable file dir ≡ false) × NoneHas runnable file dirs

-- Which of the directories is the first that has it.
abbrev pub IsFirst : (Bytes → Bool) → Bytes → List Bytes → Bytes → Type 0
IsFirst runnable file dirs path =
    (before : List Bytes) × (dir : Bytes) × (behind : List Bytes) × (dirs ≡ before ++ dir ∷ behind)
    × NoneHas runnable file before
    × (has_program runnable file dir ≡ true)
    × (path ≡ dir ++ slash ∷ file)
