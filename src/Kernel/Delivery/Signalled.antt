-- ===== src/Kernel/Delivery/Signalled.antt =====
-- kill on one task: what the signal does to it, without the code of the delivery.
use ixland.Prelude.{
  ℕ, suc, ◌<◌, ◌≡◌, ◌≢◌, ap, sym, ◌∙◌, fun_ext, true, false, ◌&&◌, ◌||◌, some, arith, ◌==◌, leb,
  ◌⊎◌, inl, inr, Bool-cases,
}
use ixland.Prelude.Int.{pos}
use ixland.Fd.Files.{Ptr, ok}
use ixland.Kernel.{Task, TaskState, Sighand, Kernel, put_task}
use ixland.Kernel.Sigset.{nsig}
use ixland.Kernel.Tasks.Table.{IsTask, IsTable}
use ixland.Kernel.Delivery.{HostSignals, with_pending, is_terminating, signal_effects, kill}
use ixland.Kernel.Delivery.Effects.{
  AreDistinct, signal_effects-terminating, signal_effects-stop, signal_effects-cont,
  signal_effects-other,
}
use ixland.Kernel.Delivery.Kill.{HasLiveParent, kill-signal_effects}

-- The signal is pending too, if a `sigset_t` of the host holds it.
abbrev made_pending : HostSignals → ℕ → Sighand → Sighand
made_pending host sig h = record h {
  pending = λ j. h.pending j || (j == sig && leb sig host.last_signal);
}

-- The task `u` is the task `t` after a signal: a terminating one makes it a zombie that a signal ended,
-- SIGSTOP stops it, SIGCONT lets it run, and any other only becomes pending, as these do.
abbrev pub Signalled : HostSignals → ℕ → Sighand → Task → Task → Type 0
Signalled host sig h t u =
    (((sig ≡ host.sigterm) ⊎ ((sig ≡ host.sigkill) ⊎ (sig ≡ host.sigint)))
      × (u ≡ record t {
        sighand = some (made_pending host sig h);
        signaled = true;
        termsig = sig;
        exited = true;
        state = TaskState.zombie;
      }))
    ⊎ (((sig ≡ host.sigstop)
          × (u ≡ record t {
            sighand = some (made_pending host sig h);
            state = TaskState.stopped;
            is_stopped = true;
            stopsig = sig;
          }))
        ⊎ (((sig ≡ host.sigcont)
              × (u ≡ record t {
                sighand = some (made_pending host sig h);
                state = TaskState.running;
                is_stopped = false;
                continued = true;
              }))
            ⊎ ((sig ≢ host.sigterm)
                × (sig ≢ host.sigkill)
                × (sig ≢ host.sigint)
                × (sig ≢ host.sigstop)
                × (sig ≢ host.sigcont)
                × (u ≡ record t { sighand = some (made_pending host sig h) }))))

with_pending-made :
    (host : HostSignals) (sig : ℕ) (h : Sighand) → with_pending host h sig ≡ made_pending host sig h
with_pending-made host sig h = elim (Bool-cases (leb sig host.last_signal)) [
  | inl e ↦ rw e (ap (λ (f : ℕ → _). record h { pending = f }) (fun_ext λ j. ground arith))
  | inr e ↦ rw e (ap (λ (f : ℕ → _). record h { pending = f }) (fun_ext λ j. ground arith))
]

signal_effects-Signalled :
    (host : HostSignals) (sig : ℕ) (h : Sighand) (t : Task)
    → AreDistinct host
    → Signalled host sig h t (signal_effects host sig h t)
signal_effects-Signalled host sig h t d =
    let same = with_pending-made host sig h in
    elim (Bool-cases (is_terminating host sig)) [
      | inl e ↦ inl (
        terminating host sig e,
        signal_effects-terminating host d h t sig e
            ∙ ap
                (λ (g : Sighand). record t {
                  sighand = some g;
                  signaled = true;
                  termsig = sig;
                  exited = true;
                  state = TaskState.zombie;
                })
                same,
      )
      | inr e ↦ elim (Bool-cases (sig == host.sigstop)) [
        | inl f ↦
            let here : sig ≡ host.sigstop = ground arith in
            inr (
              inl (
                here,
                ap (λ (s : ℕ). signal_effects host s h t) here
                    ∙ signal_effects-stop host d h t
                    ∙ ap
                        (λ (s : ℕ). record t {
                          sighand = some (with_pending host h s);
                          state = TaskState.stopped;
                          is_stopped = true;
                          stopsig = s;
                        })
                        (sym here)
                    ∙ ap
                        (λ (g : Sighand). record t {
                          sighand = some g;
                          state = TaskState.stopped;
                          is_stopped = true;
                          stopsig = sig;
                        })
                        same,
              ))
        | inr f ↦ elim (Bool-cases (sig == host.sigcont)) [
          | inl g ↦
              let here : sig ≡ host.sigcont = ground arith in
              inr (
                inr (
                  inl (
                    here,
                    ap (λ (s : ℕ). signal_effects host s h t) here
                        ∙ signal_effects-cont host d h t
                        ∙ ap
                            (λ (s : ℕ). record t {
                              sighand = some (with_pending host h s);
                              state = TaskState.running;
                              is_stopped = false;
                              continued = true;
                            })
                            (sym here)
                        ∙ ap
                            (λ (g : Sighand). record t {
                              sighand = some g;
                              state = TaskState.running;
                              is_stopped = false;
                              continued = true;
                            })
                            same,
                  )))
          | inr g ↦
              let stop : sig ≢ host.sigstop = ground arith in
              let cont : sig ≢ host.sigcont = ground arith in
              let term : sig ≢ host.sigterm = ground arith in
              let kill : sig ≢ host.sigkill = ground arith in
              let int : sig ≢ host.sigint = ground arith in
              inr (
                inr (
                  inr (
                    term,
                    kill,
                    int,
                    stop,
                    cont,
                    signal_effects-other host d h t sig e stop cont
                        ∙ ap (λ (g : Sighand). record t { sighand = some g }) same,
                  )))
        ]
      ]
    ]
  where
    terminating :
        (host : HostSignals) (sig : ℕ)
        → is_terminating host sig ≡ true
        → (sig ≡ host.sigterm) ⊎ ((sig ≡ host.sigkill) ⊎ (sig ≡ host.sigint))
    terminating host sig e = elim (Bool-cases (sig == host.sigterm)) [
      | inl a ↦ inl (ground arith)
      | inr a ↦ elim (Bool-cases (sig == host.sigkill)) [
        | inl b ↦ inr (inl (ground arith))
        | inr b ↦ inr (inr (ground arith))
      ]
    ]

-- The named signals of the host are different. In a table in order, kill with the number of a task that
-- has handling state and no parent or a live one, and a signal 1 to 63, does to that task what its
-- signal asks for and no more: SIGTERM, SIGKILL and SIGINT make it an exited zombie with that signal,
-- SIGSTOP stops it, SIGCONT makes it run and continued; the signal becomes pending if the host's
-- `sigset_t` holds it. Every other task, and the references, are as they were.
pub kill-Signalled :
    (host : HostSignals) (k : Kernel) (p : Ptr) (t : Task) (h : Sighand) (n sig : ℕ)
    → AreDistinct host
    → IsTable k
    → IsTask k p t
    → t.pid ≡ pos (suc n)
    → t.sighand ≡ some h
    → HasLiveParent k t
    → 0 < sig
    → sig < nsig
    → (u : Task) × (kill host (pos (suc n)) (pos sig) k ≡ some (ok (pos 0), put_task p (some u) k))
      × Signalled host sig h t u
kill-Signalled host k p t h n sig d v e num s live low high = (
  signal_effects host sig h t,
  kill-signal_effects host k p t h n sig v e num s live low high,
  signal_effects-Signalled host sig h t d,
)
