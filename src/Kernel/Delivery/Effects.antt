-- ===== src/Kernel/Delivery/Effects.antt =====
-- What one signal does to one task.
use ixland.Prelude.{ℕ, ◌≡◌, ◌≢◌, true, false, some, [], ◌∷◌, arith, IsDistinct}
use ixland.Kernel.{Task, TaskState, Sighand}
use ixland.Kernel.Tasks.Table.{with_refs}
use ixland.Kernel.Delivery.{HostSignals, with_pending, is_terminating, signal_effects}

-- The five signals that the code names are different signals.
abbrev pub AreDistinct : HostSignals → Type 0
AreDistinct host =
    IsDistinct (host.sigkill ∷ host.sigterm ∷ host.sigint ∷ host.sigstop ∷ host.sigcont ∷ [])

module _ (host : HostSignals) (distinct : AreDistinct host) (h : Sighand) (t : Task) where
  pub signal_effects-terminating :
      (sig : ℕ)
      → is_terminating host sig ≡ true
      → signal_effects host sig h t ≡ record t {
        sighand = some (with_pending host h sig);
        signaled = true;
        termsig = sig;
        exited = true;
        state = TaskState.zombie;
      }
  unfolding signal_effects
  signal_effects-terminating sig e = ground arith

  pub signal_effects-stop : signal_effects host host.sigstop h t ≡ record t {
    sighand = some (with_pending host h host.sigstop);
    state = TaskState.stopped;
    is_stopped = true;
    stopsig = host.sigstop;
  }
  unfolding signal_effects
  signal_effects-stop = ground arith

  pub signal_effects-cont : signal_effects host host.sigcont h t ≡ record t {
    sighand = some (with_pending host h host.sigcont);
    state = TaskState.running;
    is_stopped = false;
    continued = true;
  }
  unfolding signal_effects
  signal_effects-cont = ground arith

  -- Any other signal only becomes pending.
  pub signal_effects-other :
      (sig : ℕ)
      → is_terminating host sig ≡ false
      → sig ≢ host.sigstop
      → sig ≢ host.sigcont
      → signal_effects host sig h t ≡ record t { sighand = some (with_pending host h sig) }
  unfolding signal_effects
  signal_effects-other sig a b c = ground arith

-- What a signal leaves of a task: who it is and what it holds.
pub record IsSameTask (t u : Task) : Type 0 where
  pub pid : u.pid ≡ t.pid
  pub ppid : u.ppid ≡ t.ppid
  pub pgid : u.pgid ≡ t.pgid
  pub sid : u.sid ≡ t.sid
  pub files : u.files ≡ t.files
  pub parent : u.parent ≡ t.parent
  pub children : u.children ≡ t.children
  pub exit_status : u.exit_status ≡ t.exit_status
  pub refs : u.refs ≡ t.refs

pub signal_effects-IsSameTask :
    (host : HostSignals) (sig : ℕ) (h : Sighand) (t : Task)
    → IsSameTask t (signal_effects host sig h t)
unfolding signal_effects
signal_effects-IsSameTask host sig h t = ground arith

-- If the named signals differ, stopping and then continuing a task makes it run, not stopped,
-- reported as continued, and exited exactly if it was before.
stop_then_cont :
    (host : HostSignals) (h h' : Sighand) (t u : Task)
    → AreDistinct host
    → u ≡ signal_effects host host.sigcont h' (signal_effects host host.sigstop h t)
    → (u.state ≡ TaskState.running)
      × (u.is_stopped ≡ false)
      × (u.continued ≡ true)
      × (u.exited ≡ t.exited)
unfolding signal_effects
stop_then_cont host h h' t u d e = ground arith

-- If the named signals differ, SIGCONT to a task that has exited sets its state to running, while
-- it stays marked as exited.
cont_revives_zombie :
    (host : HostSignals) (h : Sighand) (t : Task)
    → AreDistinct host
    → t.exited ≡ true
    → t.state ≡ TaskState.zombie
    → ((signal_effects host host.sigcont h t).state ≡ TaskState.running)
      × ((signal_effects host host.sigcont h t).exited ≡ true)
unfolding signal_effects
cont_revives_zombie host h t d gone z = ground arith

-- The count of references does not matter to a signal.
pub signal_effects-with_refs :
    (host : HostSignals) (sig : ℕ) (h : Sighand) (t : Task) (n : ℕ)
    → signal_effects host sig h (with_refs t n) ≡ with_refs (signal_effects host sig h t) n
unfolding signal_effects
signal_effects-with_refs host sig h t n = ground arith
