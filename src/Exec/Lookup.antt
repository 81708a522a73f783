-- ===== src/Exec/Lookup.antt =====
-- exec.c, ixland_execvp: the search along PATH; and ixland_fexecve, which is not there.
use ixland.Prelude.{
  Bool, ◌&&◌, Option, none, some, List, [], ◌∷◌, ◌++◌, ◌==◌, ltb, if◌then◌else◌, length,
}
use ixland.Prelude.Int.{ℤ}
use ixland.Prelude.Text.{Bytes, codes}
use ixland.Fd.Errno.{enoent, enosys}
use ixland.Fd.Files.{Outcome, ok, err}
use ixland.Path.{slash, max_path}
use ixland.Exec.{has_slash}

-- `strtok_r` with ":": the parts that are not empty; `part` is the one begun.
abbrev pub ended : Bytes → List Bytes → List Bytes
ended [] parts = parts
ended (c ∷ part) parts = (c ∷ part) ∷ parts

unfoldable pub tokens : Bytes → Bytes → List Bytes
tokens [] part = ended part []
tokens (c ∷ s) part =
    let next = tokens s [] in
    let longer = tokens s (part ++ c ∷ []) in if c == b':' then ended part next else longer

-- The first directory with a file that can be run. A path too long for the buffer is passed over.
unfoldable pub search : (Bytes → Bool) → Bytes → List Bytes → Option Bytes
search runnable file [] = none
search runnable file (dir ∷ dirs) =
    let rest = search runnable file dirs in
    let path = dir ++ slash ∷ file in
    if ltb (length path) max_path && runnable path then some path else rest

abbrev pub search_path : Option Bytes → Bytes
search_path none = codes "/usr/bin:/bin"
search_path (some path) = path

-- What execvp hands to execv; `none` when strdup fails, ENOENT when nothing is found.
abbrev or_missing : Option Bytes → Outcome Bytes
or_missing none = err enoent
or_missing (some path) = ok path

unfoldable pub execvp_path : (Bytes → Bool) → Option Bytes → Bool → Bytes → Option (Outcome Bytes)
execvp_path runnable env memory file =
    if has_slash file
    then some (ok file)
    else if memory
    then some (or_missing (search runnable file (tokens (search_path env) [])))
    else none

unfoldable fexecve : ℤ → Outcome ℤ
fexecve fd = err enosys
