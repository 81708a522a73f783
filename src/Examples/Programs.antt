-- ===== src/Examples/Programs.antt =====
-- Programs that are found and run, directories, and a wait of epoll.
use ixland.Prelude.{
  arith, ℕ, ◌≡◌, Bool, true, false, none, Option, some, List, [], ◌∷◌, ◌++◌, ◌==◌, if◌then◌else◌,
}
use ixland.Prelude.Int.{pos}
use ixland.Prelude.Text.{Bytes, codes, same_bytes}
use ixland.Fd.Files.{Files, FileHeap, Outcome, ok}
use ixland.Kernel.Masks.{new_sighand}
use ixland.Fd.Files.Counts.{Covers}
use ixland.Exec.{Programs, ExecMemory, ExecState, execve}
use ixland.Exec.Effects.{AllOrNothing, execve-AllOrNothing}
use ixland.Directories.{Names, Kind, chdir, mkdirat, unlinkat, linkat, symlinkat, readlinkat}
use ixland.Directories.Translated.{IsSafe, calls-IsSafe}
use ixland.Epoll.{Filter, new_item, add_item}
use ixland.Epoll.Table.{EpollTable, new_instance}
use ixland.Epoll.Pwait.{Report, epoll_pwait}
use ixland.Epoll.Waiting.{AtMost, epoll_pwait-AtMost}

abbrev programs : Programs
programs = record {
  lookup = λ path. if same_bytes path (codes "/bin/true") then some 1 else none;
  run = λ entry s. (pos 0, s);
  access = λ path. none;
  head = λ path. some (codes "#!/b");
}

abbrev enough : ExecMemory
enough = record {
  argv = record { array = true; string = λ i. true };
  envp = record { array = true; string = λ i. true };
  image = true;
}

-- The number 1 is FD_CLOEXEC here.
abbrev marked : ℕ → Bool
marked flags = flags == 1

abbrev two_files : FileHeap
two_files p =
    if p == 1
    then some (record {
      fd = pos 0;
      real_fd = pos 7;
      flags = 1;
      position = pos 0;
      vfs_file = none;
      refs = 1;
    })
    else if p == 2
    then some (record {
      fd = pos 1;
      real_fd = pos 8;
      flags = 0;
      position = pos 0;
      vfs_file = none;
      refs = 1;
    })
    else none

abbrev two_slots : Files
two_slots = record { slots = some 1 ∷ some 2 ∷ [] }

abbrev before_exec : ExecState
before_exec = record {
  task = record {
    comm = codes "sh";
    exe = codes "/bin/sh";
    files = some two_slots;
    sighand = some new_sighand;
    vfork_parent = none;
    exec_image = none;
  };
  heap = two_files;
  notified = false;
}

two_slots-Covers : Covers two_files two_slots.slots
two_slots-Covers p = ground arith

execve-AllOrNothing_example : AllOrNothing programs marked (codes "/bin/true") before_exec (
    execve programs marked enough true
      (some (codes "/bin/true"))
      (some (codes "true" ∷ []))
      none
      before_exec)
execve-AllOrNothing_example =
    execve-AllOrNothing programs marked enough true (codes "/bin/true") (some (codes "true" ∷ []))
      none before_exec two_slots-Covers

abbrev only_bin : Bytes → Bool
only_bin path = same_bytes path (codes "/bin/ls")

abbrev names : Names
names = record {
  translate = λ path. ok (codes "/data" ++ path);
  reverse_translate = λ path. none;
  stat = λ path. ok Kind.directory;
  lstat = λ path. ok Kind.symbolic;
  may_search = λ path. true;
  getcwd = ok (codes "/data");
}

abbrev home : Option Bytes
home = some (codes "/home")

abbrev tmp : Option Bytes
tmp = some (codes "/tmp")

calls-IsSafe_example :
    IsSafe names home none none (chdir names home)
    × IsSafe names home none none (mkdirat names true home)
    × IsSafe names home none none (unlinkat names true home true)
    × IsSafe names home tmp none (linkat names true home true tmp)
    × IsSafe names home none tmp (symlinkat names tmp true home)
    × IsSafe names home none none (readlinkat names true home true 64)
calls-IsSafe_example = calls-IsSafe names true true true true home tmp 64

abbrev one_instance : EpollTable
one_instance i =
    if i == 0
    then some (add_item (new_instance 7 0) (new_item 4 (record { events = 1; user_data = 9 })))
    else none

abbrev two_reports : ℕ → Outcome (List Report)
two_reports mask = ok (
    (some 4, record { filter = Filter.read; ooband = false; error = false; eof = false })
    ∷ (some 4, record { filter = Filter.read; ooband = false; error = false; eof = true })
    ∷ [])

epoll_pwait-AtMost_example :
    AtMost 1 (epoll_pwait true two_reports (pos 356) true (pos 1) (some 6) 2 one_instance).0
    × ((epoll_pwait true two_reports (pos 356) true (pos 1) (some 6) 2 one_instance).1 ≡ 2)
epoll_pwait-AtMost_example =
    epoll_pwait-AtMost true two_reports (pos 356) true 1 (some 6) 2 one_instance
