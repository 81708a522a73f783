-- ===== src/Fd/Calls/Reached.antt =====
-- open.c, fcntl.c, read_write.c, readdir.c: every table that calls lead to is clean.
use ixland.Prelude.{
  ℕ, ◌≡◌, ◌≢◌, refl, ap, sym, subst, ◌∙◌, Bool, ◌&&◌, ◌||◌, not, not, true, false, List, [], arith,
  ◌==◌, Option, none, some, ltb, leb, ◌⊎◌, Bool-cases, inl, inr, if◌then◌else◌,
}
use ixland.Prelude.Int.{ℤ, pos, negsuc}
use ixland.Prelude.Text.{Bytes}
use ixland.Fd.Errno.{ebadf, efault, espipe}
use ixland.Fd.Files.{Outcome, ok, err}
use ixland.Fd.Static.{
  max_fd, FdTable, Entry, OpenFlags, file_init, get_fd_entry, clone_fd_entry, get_real_fd,
  get_fd_offset,
}
use ixland.Fd.Calls.{
  World, Host, Command, is_out, is_standard, open_file, close_file, dup2, copy_entry, freed, fcntl,
  on_command, change_flags, read_file, write_file, transfer_entry, moved, lseek, seek_entry, sought,
  index, advance,
}
use ixland.Dirents
use ixland.Dirents.{Dirent, stored, open_stream, on_entry, getdents64}
use ixland.Fd.Calls.Sharing.{IsClean}
use ixland.Fd.Calls.Clean.{
  put_entry-IsClean, found-used, file_init-IsClean, open_file-IsClean, close_file-IsClean,
  close_file-other, move_offset-IsClean,
}

-- A call on the table with what the host answers.
pub data Call : Type 0 where
  open_call :
      (path : Option Bytes) (flags mode : ℕ) (answer : Outcome ℕ) (directory : Option Bool) → Call
  close_call : (fd : ℤ) → Call
  dup2_call : (old new : ℤ) → Call
  fcntl_call : (host : Host) (fd : ℤ) (command : Command) → Call
  read_call write_call : (host : Host) (fd : ℤ) (buffer : Bool) → Call
  lseek_call : (host : Host) (fd : ℤ) → Call
  getdents64_call : (host : Dirents.Host) (fd : ℤ) (buffer : Bool) (count : ℕ) → Call

abbrev pub after : Call → World → World
after (Call.open_call path flags mode answer directory) w =
    (open_file path flags mode answer directory w).1
after (Call.close_call fd) w = (close_file fd w).1
after (Call.dup2_call old new) w = (dup2 old new w).1
after (Call.fcntl_call host fd command) w = (fcntl host fd command w).1
after (Call.read_call host fd buffer) w = record w { table = (read_file host fd buffer w.table).1 }
after (Call.write_call host fd buffer) w = record w {
  table = (write_file host fd buffer w.table).1;
}
after (Call.lseek_call host fd) w = record w { table = (lseek host fd w.table).1 }
after (Call.getdents64_call host fd buffer count) w = record w {
  table = (getdents64 host fd buffer count w.table).1;
}

-- The worlds that calls lead to from the table that starts zeroed.
pub data Reachable (o : OpenFlags) : World → Type 0 where
  begin :
      (junk : ℕ → Entry)
      → Reachable o (record {
        table = file_init o (record { entries = junk; initialized = false });
        closed = [];
      })
  call : (c : Call) (w : World) → Reachable o w → Reachable o (after c w)

found-index :
    (fd : ℤ) (t : FdTable) (i : ℕ) → get_fd_entry fd t ≡ some i → (t.entries (index fd)).used ≡ true
unfolding get_fd_entry
found-index (negsuc n) t i h = absurd (cc)
found-index (pos j) t i h = at (Bool-cases (ltb j max_fd && (t.entries j).used))
  where
    at :
        ((ltb j max_fd && (t.entries j).used) ≡ true)
          ⊎ ((ltb j max_fd && (t.entries j).used) ≡ false)
        → (t.entries j).used ≡ true
    at (inl a) = ground arith
    at (inr a) = ground (arith, h)

freed-other :
    (b a : ℕ) (o : Option ℕ) (w : World)
    → a ≢ b
    → (freed (pos b) o w).table.entries a ≡ w.table.entries a
freed-other b a none w ne = refl
freed-other b a (some i) w ne = close_file-other b a w ne

freed-IsClean : (fd : ℤ) (o : Option ℕ) (w : World) → IsClean w.table → IsClean (freed fd o w).table
freed-IsClean fd none w clean = clean
freed-IsClean fd (some i) w clean = close_file-IsClean fd w clean

copy_entry-IsClean :
    (a b : ℕ) (o : Option ℕ) (w : World)
    → a ≢ b
    → get_fd_entry (pos a) w.table ≡ o
    → IsClean w.table
    → IsClean (copy_entry (pos a) (pos b) o w).1.table
unfolding clone_fd_entry
copy_entry-IsClean a b none w ne h clean = clean
copy_entry-IsClean a b (some i) w ne h clean =
    let v = freed (pos b) (get_fd_entry (pos b) w.table) w in
    put_entry-IsClean v.table b (v.table.entries a)
      (freed-IsClean (pos b) (get_fd_entry (pos b) w.table) w clean)
      (inl (
        ap (λ e. e.used) (freed-other b a (get_fd_entry (pos b) w.table) w ne)
        ∙ found-index (pos a) w.table i h))

dup2-IsClean : (old new : ℤ) (w : World) → IsClean w.table → IsClean (dup2 old new w).1.table
unfolding dup2
dup2-IsClean (negsuc m) new w clean = clean
dup2-IsClean (pos a) (negsuc n) w clean = elim (Bool-cases (leb max_fd a)) [
  | inl e ↦ rw e clean
  | inr e ↦ rw e clean
]
dup2-IsClean (pos a) (pos b) w clean = elim (Bool-cases (leb max_fd a || leb max_fd b)) [
  | inl e ↦ rw e clean
  | inr e ↦ elim (Bool-cases (a == b)) [
    | inl f ↦ rw (e, f) clean
    | inr f ↦
        let q : dup2 (pos a) (pos b) w
            ≡ copy_entry (pos a) (pos b) (get_fd_entry (pos a) w.table) w =
          rw (e, f) refl in
        subst (λ (r : Outcome ℤ × World). IsClean r.1.table) (sym q)
          (copy_entry-IsClean a b (get_fd_entry (pos a) w.table) w (ground arith) refl clean)
  ]
]

change_flags-IsClean :
    (o : Option ℕ) (flags : ℕ) (w : World)
    → ((i : ℕ) → o ≡ some i → (w.table.entries i).used ≡ true)
    → IsClean w.table
    → IsClean (change_flags o flags w).1.table
change_flags-IsClean none flags w used clean = clean
change_flags-IsClean (some i) flags w used clean =
    put_entry-IsClean w.table i (record (w.table.entries i) { flags = flags }) clean
      (inl (used i refl))

fcntl-IsClean :
    (host : Host) (fd : ℤ) (command : Command) (w : World)
    → IsClean w.table
    → IsClean (fcntl host fd command w).1.table
unfolding fcntl
fcntl-IsClean host fd command w clean = elim (Bool-cases (is_out fd)) [
  | inl e ↦ rw e clean
  | inr e ↦ rw e (at command)
]
  where
    at : (c : Command) → IsClean (on_command host fd c w).1.table
    at (Command.dupfd minfd) = dup2-IsClean fd minfd w clean
    at (Command.dupfd_cloexec minfd) = dup2-IsClean fd minfd w clean
    at Command.getfd = clean
    at Command.getfl = clean
    at (Command.setfd flags) = clean
    at (Command.setfl flags) =
        change_flags-IsClean (get_fd_entry fd w.table) flags w (λ i h. found-used fd w.table i h)
          clean
    at Command.other = clean

moved-IsClean :
    (i : ℕ) (o : Outcome ℕ) (t : FdTable)
    → (t.entries i).used ≡ true
    → IsClean t
    → IsClean (moved i o t)
moved-IsClean i (err e) t used clean = clean
moved-IsClean i (ok n) t used clean = elim (Bool-cases (ltb 0 n)) [
  | inl e ↦ rw e (move_offset-IsClean t i (advance (get_fd_offset i t) n) used clean)
  | inr e ↦ rw e clean
]

sought-IsClean :
    (i : ℕ) (o : Outcome ℕ) (t : FdTable)
    → (t.entries i).used ≡ true
    → IsClean t
    → IsClean (sought i o t)
sought-IsClean i (err e) t used clean = clean
sought-IsClean i (ok n) t used clean = move_offset-IsClean t i (pos n) used clean

transfer_entry-IsClean :
    (host : Host) (o : Option ℕ) (t : FdTable)
    → ((i : ℕ) → o ≡ some i → (t.entries i).used ≡ true)
    → IsClean t
    → IsClean (transfer_entry host o t).1
transfer_entry-IsClean host none t used clean = clean
transfer_entry-IsClean host (some i) t used clean =
    moved-IsClean i (host (get_real_fd i t)) t (used i refl) clean

seek_entry-IsClean :
    (host : Host) (o : Option ℕ) (t : FdTable)
    → ((i : ℕ) → o ≡ some i → (t.entries i).used ≡ true)
    → IsClean t
    → IsClean (seek_entry host o t).1
seek_entry-IsClean host none t used clean = clean
seek_entry-IsClean host (some i) t used clean =
    sought-IsClean i (host (get_real_fd i t)) t (used i refl) clean

-- An early return or what follows it.
either-IsClean :
    (a : Bool) (x y : Outcome ℕ × FdTable)
    → IsClean x.1
    → IsClean y.1
    → IsClean (if a then x else y).1
either-IsClean true x y p q = p
either-IsClean false x y p q = q

transfer-IsClean :
    (host : Host) (fd : ℤ) (buffer : Bool) (t : FdTable)
    → IsClean t
    → IsClean (read_file host fd buffer t).1 × IsClean (write_file host fd buffer t).1
unfolding read_file write_file
transfer-IsClean host fd buffer t clean = (whole, whole)
  where
    found : IsClean (transfer_entry host (get_fd_entry fd t) t).1
    found = transfer_entry-IsClean host (get_fd_entry fd t) t (λ i h. found-used fd t i h) clean

    whole :
        IsClean
          (if not buffer
            then (err efault, t)
            else if is_out fd
            then (err ebadf, t)
            else if is_standard fd
            then (host fd, t)
            else transfer_entry host (get_fd_entry fd t) t).1
    whole =
        either-IsClean (not buffer) (err efault, t) _ clean
          (either-IsClean (is_out fd) (err ebadf, t) _ clean
            (either-IsClean (is_standard fd) (host fd, t) _ clean found))

lseek-IsClean : (host : Host) (fd : ℤ) (t : FdTable) → IsClean t → IsClean (lseek host fd t).1
unfolding lseek
lseek-IsClean host fd t clean =
    either-IsClean (is_out fd) (err ebadf, t) _ clean
      (either-IsClean (is_standard fd) (err espipe, t) _ clean
        (seek_entry-IsClean host (get_fd_entry fd t) t (λ i h. found-used fd t i h) clean))

stored-IsClean :
    (i : ℕ) (o : Outcome (List Dirent × ℤ)) (t : FdTable)
    → (t.entries i).used ≡ true
    → IsClean t
    → IsClean (stored i o t).1
stored-IsClean i (err e) t used clean = clean
stored-IsClean i (ok (ds, latest)) t used clean = move_offset-IsClean t i latest used clean

open_stream-IsClean :
    (host : Dirents.Host) (count i : ℕ) (d o : Outcome ℕ) (t : FdTable)
    → (t.entries i).used ≡ true
    → IsClean t
    → IsClean (open_stream host count i d o t).1
open_stream-IsClean host count i (err e) o t used clean = clean
open_stream-IsClean host count i (ok n) (err e) t used clean = clean
open_stream-IsClean host count i (ok n) (ok dp) t used clean = stored-IsClean i _ t used clean

on_entry-IsClean :
    (host : Dirents.Host) (count : ℕ) (o : Option ℕ) (t : FdTable)
    → ((i : ℕ) → o ≡ some i → (t.entries i).used ≡ true)
    → IsClean t
    → IsClean (on_entry host count o t).1
on_entry-IsClean host count none t used clean = clean
on_entry-IsClean host count (some i) t used clean =
    open_stream-IsClean host count i host.dup host.opendir t (used i refl) clean

getdents64-IsClean :
    (host : Dirents.Host) (fd : ℤ) (buffer : Bool) (count : ℕ) (t : FdTable)
    → IsClean t
    → IsClean (getdents64 host fd buffer count t).1
unfolding getdents64
getdents64-IsClean host fd false count t clean = clean
getdents64-IsClean host fd true count t clean = elim (Bool-cases (count == 0)) [
  | inl e ↦ rw e clean
  | inr e ↦
      rw e (on_entry-IsClean host count (get_fd_entry fd t) t (λ i h. found-used fd t i h) clean)
]

after-IsClean : (c : Call) (w : World) → IsClean w.table → IsClean (after c w).table
after-IsClean (Call.open_call path flags mode answer directory) w clean =
    open_file-IsClean path flags mode answer directory w clean
after-IsClean (Call.close_call fd) w clean = close_file-IsClean fd w clean
after-IsClean (Call.dup2_call old new) w clean = dup2-IsClean old new w clean
after-IsClean (Call.fcntl_call host fd command) w clean = fcntl-IsClean host fd command w clean
after-IsClean (Call.read_call host fd buffer) w clean =
    (transfer-IsClean host fd buffer w.table clean).0
after-IsClean (Call.write_call host fd buffer) w clean =
    (transfer-IsClean host fd buffer w.table clean).1
after-IsClean (Call.lseek_call host fd) w clean = lseek-IsClean host fd w.table clean
after-IsClean (Call.getdents64_call host fd buffer count) w clean =
    getdents64-IsClean host fd buffer count w.table clean

-- After any sequence of open, close, dup2, fcntl, read, write, lseek and getdents64 since the table was set
-- up, with whatever the host answers: an entry above the standard ones that is not in use is of zero
-- bytes.
pub Reachable-IsClean : (o : OpenFlags) (w : World) → Reachable o w → IsClean w.table
Reachable-IsClean o w (Reachable.begin junk) = file_init-IsClean o junk
Reachable-IsClean o w (Reachable.call c v r) = after-IsClean c v (Reachable-IsClean o v r)
