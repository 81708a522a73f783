-- ===== src/Kernel/Wait/Status.antt =====
-- What the status word of a child says, and to whom.
use ixland.Prelude.{ℕ, ◌/◌, ◌%◌, ◌<◌, ◌≡◌, true, false, arith}
use ixland.Prelude.Int.{ℤ, pos, negsuc}
use ixland.Kernel.{Task}
use ixland.Kernel.Delivery.{HostSignals}
use ixland.Kernel.Wait.{low_byte, task_to_status, w_stopped, w_continued}

-- How a program reads a status: WIFEXITED and WEXITSTATUS, WTERMSIG, WSTOPSIG.
abbrev term_signal : ℕ → ℕ
term_signal status = status % 128

abbrev exit_code : ℕ → ℕ
exit_code status = status / 256 % 256

low_byte_lt : (e : ℤ) → low_byte e < 256
low_byte_lt (pos n) = omega arith
low_byte_lt (negsuc n) = omega arith

-- The status of a task that exited, is not stopped and was never continued reads as its exit code
-- modulo 256, and that of a task ended by a signal below 127 as that signal; neither reads as
-- stopped.
task_to_status-terminated :
    (host : HostSignals) (t : Task)
    → t.exited ≡ true
    → t.is_stopped ≡ false
    → t.continued ≡ false
    → t.termsig < 127
    → (t.signaled ≡ false
        → (term_signal (task_to_status host t) ≡ 0)
          × (exit_code (task_to_status host t) ≡ low_byte t.exit_status)
          × (w_stopped (task_to_status host t) ≡ false))
      × (t.signaled ≡ true
          → (term_signal (task_to_status host t) ≡ t.termsig)
            × (w_stopped (task_to_status host t) ≡ false))
unfolding task_to_status
task_to_status-terminated host t gone run once small =
    (λ s. ground (arith, low_byte_lt t.exit_status), λ s. ground arith)

-- The status of a stopped task reads as stopped, by its stop signal.
task_to_status-stopped :
    (host : HostSignals) (t : Task)
    → t.signaled ≡ false
    → t.is_stopped ≡ true
    → (w_stopped (task_to_status host t) ≡ true) × (task_to_status host t / 256 ≡ t.stopsig)
unfolding task_to_status
task_to_status-stopped host t s e = ground arith

-- A continued task, not stopped and not ended by a signal, is reported with a status that the
-- file's own macros read as stopped, and never as continued.
task_to_status-continued :
    (host : HostSignals) (t : Task)
    → t.signaled ≡ false
    → t.is_stopped ≡ false
    → t.continued ≡ true
    → (w_stopped (task_to_status host t) ≡ true) × (w_continued (task_to_status host t) ≡ false)
unfolding task_to_status
task_to_status-continued host t s e c = ground arith

-- A task that was once continued and then exits, not stopped and not ended by a signal, loses its
-- exit code: the status is the same whatever the code is, and reads as stopped.
continued_loses_exit_code :
    (host : HostSignals) (t : Task) (code : ℤ)
    → t.signaled ≡ false
    → t.is_stopped ≡ false
    → t.continued ≡ true
    → t.exited ≡ true
    → (task_to_status host (record t { exit_status = code }) ≡ task_to_status host t)
      × (w_stopped (task_to_status host t) ≡ true)
unfolding task_to_status
continued_loses_exit_code host t code s e c gone = ground arith
