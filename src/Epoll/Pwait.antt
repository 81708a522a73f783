-- ===== src/Epoll/Pwait.antt =====
-- eventpoll.c: epoll_pwait.
use ixland.Prelude.{
  ℕ, zero, suc, ◌+◌, Bool, true, false, ◌||◌, not, Option, none, some, List, [], ◌∷◌, ◌==◌,
  if◌then◌else◌,
}
use ixland.Prelude.Int.{ℤ, pos, negsuc}
use ixland.Fd.Errno.{Errno, einval, ebadf, eintr, enomem}
use ixland.Fd.Files.{Outcome, ok, err}
use ixland.Epoll.{
  Event, Item, Instance, epolloneshot, epoll_hash, has_any, find_item, with_bucket, Reported,
  kqueue_to_epoll_events, submit, deletions,
}
use ixland.Epoll.Table.{EpollTable, put_instance, lookup_instance, number_of}

-- A kevent that the host reports: the item of its `udata`, if that is not NULL.
abbrev pub Report : Type 0
Report = Option ℕ × Reported

unfoldable pub unregister_in : ℕ → List Item → List Item
unregister_in fd [] = []
unregister_in fd (x ∷ xs) =
    let rest = unregister_in fd xs in
    if x.fd == fd then record x { is_registered = false } ∷ xs else x ∷ rest

abbrev fire : Item → Instance → Instance
fire item epi =
    let u = submit (deletions item.fd item) epi in
    with_bucket u (epoll_hash item.fd) (unregister_in item.fd (u.items (epoll_hash item.fd)))

-- EPOLLONESHOT.
abbrev pub fire_if : Item → Instance → Instance
fire_if item epi = if has_any item.event.events epolloneshot then fire item epi else epi

abbrev pub event_for : Item → Reported → Event
event_for item r = record { events = kqueue_to_epoll_events r; user_data = item.event.user_data }

abbrev pub more_events : Event → Option (List Event × Instance) → Option (List Event × Instance)
more_events e none = none
more_events e (some (es, epi)) = some (e ∷ es, epi)

-- The loop over the reported kevents while `room` is left; `none`: an item that is not there is read.
unfoldable pub collect_events : ℕ → List Report → Instance → Option (List Event × Instance)
collect_events zero rs epi = some ([], epi)
collect_events (suc room) [] epi = some ([], epi)
collect_events (suc room) ((none, k) ∷ rs) epi = collect_events (suc room) rs epi
collect_events (suc room) ((some fd, k) ∷ rs) epi = elim (find_item epi fd) [
  | none ↦ none
  | some item ↦ more_events (event_for item k) (collect_events room rs (fire_if item epi))
]

abbrev pub count_events : List Event → ℕ
count_events [] = 0
count_events (e ∷ es) = suc (count_events es)

abbrev is_eintr : Errno → Bool
is_eintr Errno.eintr = true
is_eintr _ = false

abbrev pub delivered :
    ℕ → EpollTable → Option (List Event × Instance) → Option (Outcome (List Event) × EpollTable)
delivered i table none = none
delivered i table (some (es, epi)) = some (
  ok es,
  put_instance table i (some (record epi { total_events = epi.total_events + count_events es })),
)

abbrev pub on_reports :
    ℕ
    → ℕ
    → Instance
    → EpollTable
    → Outcome (List Report)
    → Option (Outcome (List Event) × EpollTable)
on_reports i maxevents epi table (err e) = some (err (if is_eintr e then eintr else ebadf), table)
on_reports i maxevents epi table (ok rs) = delivered i table (collect_events maxevents rs epi)

abbrev pub mask_during : Option ℕ → ℕ → ℕ
mask_during none mask = mask
mask_during (some sigmask) mask = sigmask

-- `pthread_sigmask` with the old mask, if there was a new one.
abbrev pub mask_after : Option ℕ → ℕ → ℕ → ℕ
mask_after none old now = now
mask_after (some sigmask) old now = old

abbrev pub pwait_on :
    Bool
    → (ℕ → Outcome (List Report))
    → ℕ
    → ℕ
    → Option ℕ
    → ℕ
    → Option Instance
    → EpollTable
    → Option (Outcome (List Event) × EpollTable) × ℕ
pwait_on memory wait i maxevents sigmask mask none table = (some (err ebadf, table), mask)
pwait_on memory wait i maxevents sigmask mask (some epi) table =
    let during = mask_during sigmask mask in
    (
      if memory then on_reports i maxevents epi table (wait during) else some (err enomem, table),
      mask_after sigmask mask during,
    )

-- `events` says whether the array is there; `wait` is what kevent reports under a signal mask; `mask` is
-- the thread's mask, which is the second result.
unfoldable pub epoll_pwait :
    Bool
    → (ℕ → Outcome (List Report))
    → ℤ
    → Bool
    → ℤ
    → Option ℕ
    → ℕ
    → EpollTable
    → Option (Outcome (List Event) × EpollTable) × ℕ
epoll_pwait memory wait epfd events (negsuc n) sigmask mask table = (some (err einval, table), mask)
epoll_pwait memory wait epfd events (pos maxevents) sigmask mask table =
    if not events || maxevents == 0
    then (some (err einval, table), mask)
    else pwait_on memory wait (number_of epfd) maxevents sigmask mask (lookup_instance epfd table)
        table
