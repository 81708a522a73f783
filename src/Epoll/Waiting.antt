-- ===== src/Epoll/Waiting.antt =====
-- eventpoll.c, epoll_pwait: how many events, and the signal mask.
use ixland.Prelude.{
  ℕ, zero, suc, ◌≡◌, ◌≤◌, refl, Bool, true, false, not, ◌||◌, Option, none, some, List, [], ◌∷◌,
  ◌==◌, arith, Bool-cases, Option-cases, inl, inr,
}
use ixland.Prelude.Int.{ℤ, pos}
use ixland.Fd.Files.{Outcome, ok, err}
use ixland.Epoll.{Event, Instance, find_item}
use ixland.Epoll.Table.{EpollTable, lookup_instance, number_of}
use ixland.Epoll.Pwait.{
  Report, fire_if, event_for, more_events, collect_events, count_events, delivered, on_reports,
  pwait_on, epoll_pwait,
}

-- At most so many events, if there is a result that is no failure.
abbrev pub AtMost : ℕ → Option (Outcome (List Event) × EpollTable) → Type 0
AtMost room none = Unit
AtMost room (some (err e, table)) = Unit
AtMost room (some (ok es, table)) = count_events es ≤ room

abbrev FewEvents : ℕ → Option (List Event × Instance) → Type 0
FewEvents room none = Unit
FewEvents room (some (es, epi)) = count_events es ≤ room

more_events-FewEvents :
    (room : ℕ) (e : Event) (o : Option (List Event × Instance))
    → FewEvents room o
    → FewEvents (suc room) (more_events e o)
more_events-FewEvents room e none h = tt
more_events-FewEvents room e (some (es, epi)) h = omega arith

collect_events-FewEvents :
    (room : ℕ) (rs : List Report) (epi : Instance) → FewEvents room (collect_events room rs epi)
unfolding collect_events
collect_events-FewEvents zero rs epi = omega arith
collect_events-FewEvents (suc room) [] epi = omega arith
collect_events-FewEvents (suc room) ((none, k) ∷ rs) epi =
    collect_events-FewEvents (suc room) rs epi
collect_events-FewEvents (suc room) ((some fd, k) ∷ rs) epi =
    elim (Option-cases (find_item epi fd)) [
      | inl e ↦ rw (FewEvents, collect_events, e) tt
      | inr (item, e) ↦
          rw (FewEvents, collect_events, e)
            (more_events-FewEvents room (event_for item k)
              (collect_events room rs (fire_if item epi))
              (collect_events-FewEvents room rs (fire_if item epi)))
    ]

delivered-AtMost :
    (i room : ℕ) (table : EpollTable) (o : Option (List Event × Instance))
    → FewEvents room o
    → AtMost room (delivered i table o)
delivered-AtMost i room table none h = tt
delivered-AtMost i room table (some (es, epi)) h = h

on_reports-AtMost :
    (i room : ℕ) (epi : Instance) (table : EpollTable) (o : Outcome (List Report))
    → AtMost room (on_reports i room epi table o)
on_reports-AtMost i room epi table (err e) = tt
on_reports-AtMost i room epi table (ok rs) =
    delivered-AtMost i room table (collect_events room rs epi)
      (collect_events-FewEvents room rs epi)

pwait_on-AtMost :
    (memory : Bool) (wait : ℕ → Outcome (List Report)) (i room : ℕ) (sigmask : Option ℕ) (mask : ℕ)
    (o : Option Instance) (table : EpollTable)
    → AtMost room (pwait_on memory wait i room sigmask mask o table).0
      × ((pwait_on memory wait i room sigmask mask o table).1 ≡ mask)
pwait_on-AtMost memory wait i room sigmask mask none table = (tt, refl)
pwait_on-AtMost true wait i room none mask (some epi) table =
    (on_reports-AtMost i room epi table (wait mask), refl)
pwait_on-AtMost true wait i room (some sigmask) mask (some epi) table =
    (on_reports-AtMost i room epi table (wait sigmask), refl)
pwait_on-AtMost false wait i room none mask (some epi) table = (tt, refl)
pwait_on-AtMost false wait i room (some sigmask) mask (some epi) table = (tt, refl)

-- `epoll_pwait` gives at most as many events as the caller has room for, whatever the host reports, and
-- the signal mask of the thread afterwards is the one from before, on every return.
pub epoll_pwait-AtMost :
    (memory : Bool) (wait : ℕ → Outcome (List Report)) (epfd : ℤ) (events : Bool) (maxevents : ℕ)
    (sigmask : Option ℕ) (mask : ℕ) (table : EpollTable)
    → AtMost maxevents (epoll_pwait memory wait epfd events (pos maxevents) sigmask mask table).0
      × ((epoll_pwait memory wait epfd events (pos maxevents) sigmask mask table).1 ≡ mask)
unfolding epoll_pwait
epoll_pwait-AtMost memory wait epfd events maxevents sigmask mask table =
    elim (Bool-cases (not events || maxevents == 0)) [
      | inl e ↦ rw e (tt, refl)
      | inr e ↦ rw e (
          pwait_on-AtMost memory wait (number_of epfd) maxevents sigmask mask
            (lookup_instance epfd table) table)
    ]
