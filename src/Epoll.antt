-- ===== src/Epoll.antt =====
-- IXLandSystem/fs/eventpoll.c and epoll_internal.h: the instances of epoll and their lists of items.
-- What calloc, kqueue, kevent and fcntl of the host answer is an argument, and `submitted` lists the
-- changes that kevent was given, the last call first. An item is found and changed through a pointer to
-- it; here it is the first item of its number in its bucket. The lock of an instance makes a call one
-- step. A reported kevent names its item by the item's number, so that an item which was freed and made
-- again under that number counts as the same.
pub mod Items
pub mod Table
pub mod Pwait
pub mod Interests
pub mod Deletions
pub mod Instances
pub mod Waiting
use Prim.Native.Nat.{bit_and}
use ixland.Prelude.{
  ℕ, zero, suc, ◌+◌, ◌-◌, Bool, true, false, ◌&&◌, ◌||◌, not, Option, none, some, List, [], ◌∷◌,
  ◌++◌, ◌==◌, ltb, leb, if◌then◌else◌,
}
use ixland.Prelude.Int.{ℤ, pos, negsuc, eqb}
use ixland.Fd.Errno.{Errno, einval, ebadf, eintr, emfile, enomem, enoent, eexist, eperm}
use ixland.Fd.Files.{Outcome, ok, err}
use ixland.Fd.Static.{max_fd}

pub record Event : Type 0 where
  pub events : ℕ
  pub user_data : ℕ

pub record Item : Type 0 where
  pub fd : ℕ
  pub event : Event
  pub registered_events : ℕ
  pub is_registered : Bool
  pub edge_triggered : Bool

-- EVFILT_READ and EVFILT_WRITE.
pub data Filter : Type 0 where
  read write : Filter

-- A `struct kevent` that is given to the host: EV_ADD or EV_DELETE, with EV_CLEAR and EV_ONESHOT.
pub record Change : Type 0 where
  pub ident : ℕ
  pub filter : Filter
  pub adds : Bool
  pub clear : Bool
  pub oneshot : Bool

pub record Instance : Type 0 where
  pub kq : ℕ
  pub flags : ℕ
  pub items : ℕ → List Item
  pub item_count : ℕ
  pub total_events : ℕ
  pub submitted : List (List Change)

abbrev epollin : ℕ
epollin = 1

abbrev epollpri : ℕ
epollpri = 2

abbrev epollout : ℕ
epollout = 4

abbrev epollerr : ℕ
epollerr = 8

abbrev epollhup : ℕ
epollhup = 16

abbrev epollrdnorm : ℕ
epollrdnorm = 64

abbrev epollrdband : ℕ
epollrdband = 128

abbrev epollwrband : ℕ
epollwrband = 512

abbrev epollrdhup : ℕ
epollrdhup = 8192

abbrev pub epolloneshot : ℕ
epolloneshot = 1073741824

abbrev pub epollet : ℕ
epollet = 2147483648

abbrev hash_size : ℕ
hash_size = 16

unfoldable pub epoll_hash : ℕ → ℕ
epoll_hash fd = bit_and fd (hash_size - 1)

-- `mask & flag`.
abbrev pub has_any : ℕ → ℕ → Bool
has_any mask flag = not (bit_and mask flag == 0)

unfoldable pub find_in : ℕ → List Item → Option Item
find_in fd [] = none
find_in fd (x ∷ xs) = let rest = find_in fd xs in if x.fd == fd then some x else rest

abbrev pub find_item : Instance → ℕ → Option Item
find_item epi fd = find_in fd (epi.items (epoll_hash fd))

abbrev pub with_bucket : Instance → ℕ → List Item → Instance
with_bucket epi b xs = record epi { items = λ j. if j == b then xs else epi.items j }

abbrev pub add_item : Instance → Item → Instance
add_item epi x = record (with_bucket epi (epoll_hash x.fd) (x ∷ epi.items (epoll_hash x.fd))) {
  item_count = epi.item_count + 1;
}

unfoldable pub remove_in : ℕ → List Item → List Item
remove_in fd [] = []
remove_in fd (x ∷ xs) = let rest = remove_in fd xs in if x.fd == fd then xs else x ∷ rest

abbrev pub remove_item : Instance → ℕ → Instance
remove_item epi fd =
    record (with_bucket epi (epoll_hash fd) (remove_in fd (epi.items (epoll_hash fd)))) {
      item_count = epi.item_count - 1;
    }

abbrev pub change_for : Bool → ℕ → ℕ → Bool → Filter → List Change
change_for wanted fd events add filter =
    if wanted
    then record {
      ident = fd;
      filter = filter;
      adds = add;
      clear = add && has_any events epollet;
      oneshot = add && has_any events epolloneshot;
    }
      ∷ []
    else []

-- EPOLLWRNORM is EPOLLOUT. The array has room for both changes.
unfoldable pub build_kevents : ℕ → ℕ → Bool → List Change
build_kevents fd events add =
    change_for (has_any events (epollin + epollrdnorm + epollrdband + epollpri)) fd events add
      Filter.read
    ++ change_for (has_any events (epollout + epollwrband)) fd events add Filter.write

-- What the host reports in `flags` of a kevent.
pub record Reported : Type 0 where
  pub filter : Filter
  pub ooband : Bool
  pub error : Bool
  pub eof : Bool

abbrev pub bit : Bool → ℕ → ℕ
bit b flag = if b then flag else 0

abbrev filter_events : Filter → Bool → ℕ
filter_events Filter.read ooband = epollin + bit ooband epollpri
filter_events Filter.write ooband = epollout

unfoldable kqueue_to_epoll_events : Reported → ℕ
kqueue_to_epoll_events r =
    filter_events r.filter r.ooband + bit r.error epollerr + bit r.eof (epollhup + epollrdhup)

-- kevent of the host: whether it takes a list of changes.
abbrev pub Kevent : Type 0
Kevent = List Change → Bool

-- A call of kevent, unless there is no change.
abbrev pub submit : List Change → Instance → Instance
submit [] epi = epi
submit (c ∷ cs) epi = record epi { submitted = (c ∷ cs) ∷ epi.submitted }

abbrev pub accepts : Kevent → List Change → Bool
accepts kevent [] = true
accepts kevent (c ∷ cs) = kevent (c ∷ cs)

-- `event->events & ~EPOLLONESHOT`.
abbrev without_oneshot : ℕ → ℕ
without_oneshot events = events - bit_and events epolloneshot

abbrev pub new_item : ℕ → Event → Item
new_item fd event = record {
  fd = fd;
  event = event;
  registered_events = 0;
  is_registered = true;
  edge_triggered = has_any event.events epollet;
}

abbrev pub additions : ℕ → Event → List Change
additions fd event = build_kevents fd (without_oneshot event.events) true

-- `memory`: calloc gives an item.
unfoldable pub ctl_add :
    Bool → Kevent → ℕ → Option Event → Option Item → Instance → Outcome ℕ × Instance
ctl_add memory kevent fd none item epi = (err einval, epi)
ctl_add memory kevent fd (some event) (some item) epi = (err eexist, epi)
ctl_add memory kevent fd (some event) none epi =
    if not memory
    then (err enomem, epi)
    else if accepts kevent (additions fd event)
    then (ok 0, add_item (submit (additions fd event) epi) (new_item fd event))
    else (err eperm, submit (additions fd event) epi)

abbrev pub deletions : ℕ → Item → List Change
deletions fd item = build_kevents fd item.registered_events false

unfoldable pub ctl_del : ℕ → Option Item → Instance → Outcome ℕ × Instance
ctl_del fd none epi = (err enoent, epi)
ctl_del fd (some item) epi = (ok 0, remove_item (submit (deletions fd item) epi) item.fd)

abbrev set_event : Event → Item → Item
set_event event item = record item { event = event; edge_triggered = has_any event.events epollet }

unfoldable pub change_in : ℕ → Event → List Item → List Item
change_in fd event [] = []
change_in fd event (x ∷ xs) =
    let rest = change_in fd event xs in if x.fd == fd then set_event event x ∷ xs else x ∷ rest

abbrev pub change_item : Instance → ℕ → Event → Instance
change_item epi fd event =
    with_bucket epi (epoll_hash fd) (change_in fd event (epi.items (epoll_hash fd)))

unfoldable pub ctl_mod : Kevent → ℕ → Option Event → Option Item → Instance → Outcome ℕ × Instance
ctl_mod kevent fd none item epi = (err einval, epi)
ctl_mod kevent fd (some event) none epi = (err enoent, epi)
ctl_mod kevent fd (some event) (some item) epi =
    let u = submit (additions fd event) (change_item (submit (deletions fd item) epi) fd event) in
    (if accepts kevent (additions fd event) then ok 0 else err eperm, u)

-- EPOLL_CTL_ADD, EPOLL_CTL_DEL, EPOLL_CTL_MOD and any other number.
pub data Op : Type 0 where
  add del modify other : Op

abbrev pub ctl_op : Bool → Kevent → Op → ℕ → Option Event → Instance → Outcome ℕ × Instance
ctl_op memory kevent Op.add fd event epi = ctl_add memory kevent fd event (find_item epi fd) epi
ctl_op memory kevent Op.del fd event epi = ctl_del fd (find_item epi fd) epi
ctl_op memory kevent Op.modify fd event epi = ctl_mod kevent fd event (find_item epi fd) epi
ctl_op memory kevent Op.other fd event epi = (err einval, epi)
