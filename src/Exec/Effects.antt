-- ===== src/Exec/Effects.antt =====
-- exec.c, ixland_execve: what a call leaves of the task.
use ixland.Prelude.{
  ℕ, ◌-◌, ◌≡◌, refl, ap, fun_ext, ◌&&◌, not, ◌==◌, ltb, if◌then◌else◌, arith, Bool, true, false,
  Option, none, some, List, [], ◌∷◌, Bool-cases, Option-cases, ◌⊎◌, inl, inr,
}
use ixland.Prelude.Int.{ℤ}
use ixland.Prelude.Text.{Bytes, take}
use ixland.Fd.Errno.{Errno, enoent, esrch, enomem, enoexec}
use ixland.Fd.Files.{Files, FileHeap, Outcome, ok, err}
use ixland.Path.{max_path}
use ixland.Fd.Files.Counts.{Covers, released}
use ixland.Kernel.{Action, Sighand}
use ixland.Kernel.Sigset.{nsig}
use ixland.Exec.Cloexec.{is_marked, other_slots, marked_slots, close_cloexec-released}
use ixland.Exec.{
  reset_signals, ImageType, ExecState, Programs, exec_classify, ExecMemory, copies, close_cloexec,
  reset_sighand, changed, run_image, go_on, with_copies, image_there, find_type, exec_found, execve,
}

-- The pointers of the table, if there is one, are counted by the file objects.
abbrev AreCounted : Option Files → FileHeap → Type 0
AreCounted none h = Unit
AreCounted (some t) h = Covers h t.slots

-- The table without the slots to marked objects.
abbrev kept_files : (ℕ → Bool) → Option Files → FileHeap → Option Files
kept_files has_cloexec none h = none
kept_files has_cloexec (some t) h =
    some (record { slots = other_slots (λ p. is_marked has_cloexec (h p)) t.slots })

-- The file objects with one reference less for each slot to a marked one.
abbrev kept_heap : (ℕ → Bool) → Option Files → FileHeap → FileHeap
kept_heap has_cloexec none h = h
kept_heap has_cloexec (some t) h =
    released (marked_slots (λ p. is_marked has_cloexec (h p)) t.slots) h

-- Signals that were ignored (SIG_IGN is 1) stay ignored, the others get the default action, 0; none is
-- blocked or pending.
abbrev fresh_sighand : Option Sighand → Option Sighand
fresh_sighand none = none
fresh_sighand (some h) = some (record {
  action = λ i.
      if ltb i nsig && not ((h.action i).handler == 1)
      then record (h.action i) { handler = 0 }
      else h.action i;
  blocked = λ i. false;
  pending = λ i. false;
})

-- The state `u` is `s` after the marked descriptors were closed, the signals reset, and the path set.
pub record IsReplaced (has_cloexec : ℕ → Bool) (path : Bytes) (s u : ExecState) : Type 0 where
  pub files : u.task.files ≡ kept_files has_cloexec s.task.files s.heap
  pub heap : u.heap ≡ kept_heap has_cloexec s.task.files s.heap
  pub sighand : u.task.sighand ≡ fresh_sighand s.task.sighand
  pub exe : u.task.exe ≡ take (max_path - 1) path
  pub vfork_parent : u.task.vfork_parent ≡ s.task.vfork_parent

-- The task that a native entry is given.
abbrev with_native : Bytes → ExecState → ExecState
with_native path u = record u {
  task = record u.task {
    exec_image = some (record { kind = ImageType.native; path = take (max_path - 1) path });
  };
}

-- A call fails with the state `u`, or it hands it to the entry of the path.
abbrev pub Ends : Programs → Bytes → ExecState → Option (Outcome ℤ × ExecState) → Type 0
Ends m path u o =
    ((e : Errno) × (o ≡ some (err e, u)))
    ⊎ ((entry : ℕ) × (m.lookup path ≡ some entry)
        × (o
            ≡ some (ok (m.run entry (with_native path u)).0, (m.run entry (with_native path u)).1)))

-- A call fails and changes nothing, or it replaces the program before it ends.
abbrev pub AllOrNothing :
    Programs → (ℕ → Bool) → Bytes → ExecState → Option (Outcome ℤ × ExecState) → Type 0
AllOrNothing m has_cloexec path s o =
    ((e : Errno) × (o ≡ some (err e, s)))
    ⊎ ((u : ExecState) × IsReplaced has_cloexec path s u × Ends m path u o)

close_cloexec-kept :
    (has_cloexec : ℕ → Bool) (o : Option Files) (h : FileHeap)
    → AreCounted o h
    → close_cloexec has_cloexec o h ≡ some (kept_files has_cloexec o h, kept_heap has_cloexec o h)
unfolding close_cloexec
close_cloexec-kept has_cloexec none h c = refl
close_cloexec-kept has_cloexec (some t) h c = close_cloexec-released has_cloexec t h c

reset_sighand-fresh : (o : Option Sighand) → reset_sighand o ≡ fresh_sighand o
unfolding reset_signals
reset_sighand-fresh none = refl
reset_sighand-fresh (some h) =
    ap
      (λ (f : ℕ → Action). some (record { action = f; blocked = λ i. false; pending = λ i. false }))
      (fun_ext λ i. ground arith)

run_image-Ends :
    (m : Programs) (path : Bytes) (kind : ImageType) (u : ExecState)
    → Ends m path u (some (run_image m path kind u))
run_image-Ends m path ImageType.native u = elim (Option-cases (m.lookup path)) [
  | inl e ↦ inl (enoent, rw e refl)
  | inr (entry, e) ↦ inr (entry, e, rw e refl)
]
run_image-Ends m path ImageType.wasi u = inl (enoexec, refl)
run_image-Ends m path ImageType.script u = inl (enoexec, refl)
run_image-Ends m path ImageType.unknown u = inl (enoexec, refl)

go_on-AllOrNothing :
    (m : Programs) (has_cloexec : ℕ → Bool) (path : Bytes) (argv : Option (List Bytes))
    (kind : ImageType) (s : ExecState)
    → AreCounted s.task.files s.heap
    → AllOrNothing m has_cloexec path s (go_on m has_cloexec path argv kind s)
go_on-AllOrNothing m has_cloexec path argv kind s c =
    let closed : Option Files × FileHeap =
      (kept_files has_cloexec s.task.files s.heap, kept_heap has_cloexec s.task.files s.heap) in
    let u = changed path argv s closed in
    inr (
      u,
      record {
        files = refl;
        heap = refl;
        sighand = reset_sighand-fresh s.task.sighand;
        exe = refl;
        vfork_parent = refl;
      },
      rw (go_on, close_cloexec-kept has_cloexec s.task.files s.heap c)
          (run_image-Ends m path kind u),
    )

with_copies-AllOrNothing :
    (m : Programs) (has_cloexec : ℕ → Bool) (path : Bytes) (memory : Bool)
    (argv envp : Option (Option (List Bytes))) (kind : ImageType) (s : ExecState)
    → AreCounted s.task.files s.heap
    → AllOrNothing m has_cloexec path s (with_copies m has_cloexec path memory argv envp kind s)
with_copies-AllOrNothing m has_cloexec path memory none envp kind s c = inl (enomem, refl)
with_copies-AllOrNothing m has_cloexec path memory (some argv) none kind s c = inl (enomem, refl)
with_copies-AllOrNothing m has_cloexec path memory (some argv) (some envp) kind s c =
    elim (Bool-cases (image_there s.task.exec_image memory)) [
      | inl e ↦ rw e (go_on-AllOrNothing m has_cloexec path argv kind s c)
      | inr e ↦ inl (enomem, rw e refl)
    ]

exec_found-AllOrNothing :
    (m : Programs) (has_cloexec : ℕ → Bool) (memory : ExecMemory) (path : Bytes)
    (argv envp : Option (List Bytes)) (o : Outcome ImageType) (s : ExecState)
    → AreCounted s.task.files s.heap
    → AllOrNothing m has_cloexec path s (exec_found m has_cloexec memory path argv envp o s)
exec_found-AllOrNothing m has_cloexec memory path argv envp (err e) s c = inl (e, refl)
exec_found-AllOrNothing m has_cloexec memory path argv envp (ok kind) s c =
    with_copies-AllOrNothing m has_cloexec path memory.image (copies memory.argv argv)
      (copies memory.envp envp) kind s c

-- The pointers of the task's table are counted. Then `ixland_execve` of a path either fails and changes
-- nothing; or it closes the descriptors marked to be closed, and no other, with one reference less of
-- the file object for each, gives every signal that is not ignored the default action, with none blocked
-- or pending, and sets the program's path. After that it fails, or it hands the task so changed to the
-- native entry of the path, and what that returns and leaves is the result.
pub execve-AllOrNothing :
    (m : Programs) (has_cloexec : ℕ → Bool) (memory : ExecMemory) (current : Bool) (path : Bytes)
    (argv envp : Option (List Bytes)) (s : ExecState)
    → AreCounted s.task.files s.heap
    → AllOrNothing m has_cloexec path s
        (execve m has_cloexec memory current (some path) argv envp s)
unfolding execve
execve-AllOrNothing m has_cloexec memory current [] argv envp s counted = inl (enoent, refl)
execve-AllOrNothing m has_cloexec memory true (c ∷ path) argv envp s counted =
    exec_found-AllOrNothing m has_cloexec memory (c ∷ path) argv envp
      (find_type m (c ∷ path) (m.lookup (c ∷ path)) (m.access (c ∷ path))) s counted
execve-AllOrNothing m has_cloexec memory false (c ∷ path) argv envp s counted = inl (esrch, refl)

-- The file is no native command, may be run, and is a script or a WASI module.
abbrev pub IsForeign : Programs → Bytes → Type 0
IsForeign m path =
    (m.lookup path ≡ none)
    × (m.access path ≡ none)
    × ((exec_classify m path ≡ ImageType.script) ⊎ (exec_classify m path ≡ ImageType.wasi))

-- With a task that has an image and without argument arrays, `ixland_execve` of a script or a WASI
-- module that may be run answers ENOEXEC, but only after the descriptors marked to be closed were
-- closed and the signals reset.
execve-IsForeign :
    (m : Programs) (has_cloexec : ℕ → Bool) (memory : ExecMemory) (c : ℕ) (path : Bytes)
    (s : ExecState) (closed : Option Files × FileHeap)
    → IsForeign m (c ∷ path)
    → image_there s.task.exec_image memory.image ≡ true
    → close_cloexec has_cloexec s.task.files s.heap ≡ some closed
    → execve m has_cloexec memory true (some (c ∷ path)) none none s
      ≡ some (err enoexec, changed (c ∷ path) none s closed)
unfolding execve
execve-IsForeign m has_cloexec memory c path s closed (native, allowed, inl kind) image e =
    rw (native, allowed, find_type, kind, image, go_on, e) refl
execve-IsForeign m has_cloexec memory c path s closed (native, allowed, inr kind) image e =
    rw (native, allowed, find_type, kind, image, go_on, e) refl
