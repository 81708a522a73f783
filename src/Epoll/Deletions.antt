-- ===== src/Epoll/Deletions.antt =====
-- eventpoll.c: `registered_events` of an item is never written, so that kevent is never asked to delete.
use ixland.Prelude.{
  ℕ, ◌+◌, ◌≡◌, refl, ap, sym, ◌∙◌, Bool, true, false, Option, none, some, List, [], ◌∷◌, ◌++◌, ◌==◌,
  Bool-cases, Option-cases, inl, inr, if◌then◌else◌,
}
use ixland.Fd.Errno.{eperm}
use ixland.Fd.Files.{Outcome, ok, err}
use ixland.Epoll.{
  Event, Item, Instance, Kevent, Op, Change, Filter, change_for, has_any, without_oneshot, epollin,
  epollrdnorm, epollrdband, epollpri, epollout, epollwrband, epoll_hash, find_in, find_item,
  remove_in, change_in, with_bucket, add_item, change_item, new_item, accepts, additions, deletions,
  submit, build_kevents, ctl_add, ctl_del, ctl_mod, ctl_op,
}

-- The items of a list have no registered events.
abbrev NoneRegistered : List Item → Type 0
NoneRegistered [] = Unit
NoneRegistered (x ∷ xs) = (x.registered_events ≡ 0) × NoneRegistered xs

-- Those of all the buckets.
abbrev pub IsUnregistered : Instance → Type 0
IsUnregistered epi = (b : ℕ) → NoneRegistered (epi.items b)

find_in-registered :
    (fd : ℕ) (xs : List Item) (x : Item)
    → NoneRegistered xs
    → find_in fd xs ≡ some x
    → x.registered_events ≡ 0
unfolding find_in
find_in-registered fd [] x h e = cc
find_in-registered fd (y ∷ xs) x (zero, h) e = elim (Bool-cases (y.fd == fd)) [
  | inl f ↦
      (let same : some y ≡ some x = rw f at e in
        let q : y ≡ x = cc in ap (λ z. z.registered_events) (sym q) ∙ zero)
  | inr f ↦ find_in-registered fd xs x h (rw f at e)
]

remove_in-NoneRegistered :
    (fd : ℕ) (xs : List Item) → NoneRegistered xs → NoneRegistered (remove_in fd xs)
unfolding remove_in
remove_in-NoneRegistered fd [] h = h
remove_in-NoneRegistered fd (x ∷ xs) (zero, h) = elim (Bool-cases (x.fd == fd)) [
  | inl e ↦ rw e h
  | inr e ↦ rw e (zero, remove_in-NoneRegistered fd xs h)
]

change_in-NoneRegistered :
    (fd : ℕ) (event : Event) (xs : List Item)
    → NoneRegistered xs
    → NoneRegistered (change_in fd event xs)
unfolding change_in
change_in-NoneRegistered fd event [] h = h
change_in-NoneRegistered fd event (x ∷ xs) (zero, h) = elim (Bool-cases (x.fd == fd)) [
  | inl e ↦ rw e (zero, h)
  | inr e ↦ rw e (zero, change_in-NoneRegistered fd event xs h)
]

bucket-IsUnregistered :
    (epi : Instance) (b : ℕ) (xs : List Item)
    → IsUnregistered epi
    → NoneRegistered xs
    → IsUnregistered (with_bucket epi b xs)
bucket-IsUnregistered epi b xs h new j = elim (Bool-cases (j == b)) [
  | inl e ↦ rw e new
  | inr e ↦ rw e (h j)
]

submit-IsUnregistered :
    (cs : List _) (epi : Instance) → IsUnregistered epi → IsUnregistered (submit cs epi)
submit-IsUnregistered [] epi h = h
submit-IsUnregistered (c ∷ cs) epi h = h

no_deletions : (fd : ℕ) (x : Item) → x.registered_events ≡ 0 → deletions fd x ≡ []
unfolding build_kevents
no_deletions fd x h = rw h refl

-- The changes that an operation asks kevent for: an addition of an item that is not there, if there is
-- memory, and a modification of one that is there ask for the additions of the event, and nothing else
-- asks for anything.
abbrev pub asked_for : Bool → Op → ℕ → Option Event → Option Item → List Change
asked_for true Op.add fd (some event) none = additions fd event
asked_for memory Op.modify fd (some event) (some item) = additions fd event
asked_for _ _ _ _ _ = []

-- One more call of kevent, if there are changes.
abbrev noted : List Change → List (List Change) → List (List Change)
noted [] calls = calls
noted (c ∷ cs) calls = (c ∷ cs) ∷ calls

-- Changes that all add filters.
abbrev AllAdd : List Change → Type 0
AllAdd [] = Unit
AllAdd (c ∷ cs) = (c.adds ≡ true) × AllAdd cs

-- What an operation leaves: no registered events, and the calls of kevent for `cs`, which only adds.
abbrev pub Leaves : List Change → Instance → Instance → Type 0
Leaves cs epi u = IsUnregistered u × (u.submitted ≡ noted cs epi.submitted) × AllAdd cs

change_for-AllAdd :
    (a b : Bool) (fd events : ℕ)
    → AllAdd (change_for a fd events true Filter.read ++ change_for b fd events true Filter.write)
change_for-AllAdd true true fd events = (refl, (refl, tt))
change_for-AllAdd true false fd events = (refl, tt)
change_for-AllAdd false true fd events = (refl, tt)
change_for-AllAdd false false fd events = tt

additions-AllAdd : (fd : ℕ) (event : Event) → AllAdd (additions fd event)
unfolding build_kevents
additions-AllAdd fd event =
    let events = without_oneshot event.events in
    change_for-AllAdd (has_any events (epollin + epollrdnorm + epollrdband + epollpri))
      (has_any events (epollout + epollwrband)) fd events

submitted-submit :
    (cs : List Change) (epi : Instance) → (submit cs epi).submitted ≡ noted cs epi.submitted
submitted-submit [] epi = refl
submitted-submit (c ∷ cs) epi = refl

ctl_add-Leaves :
    (memory : Bool) (kevent : Kevent) (fd : ℕ) (event : Option Event) (item : Option Item)
    (epi : Instance)
    → IsUnregistered epi
    → Leaves (asked_for memory Op.add fd event item) epi (ctl_add memory kevent fd event item epi).1
unfolding ctl_add
ctl_add-Leaves true kevent fd none item epi h = (h, refl, tt)
ctl_add-Leaves false kevent fd none item epi h = (h, refl, tt)
ctl_add-Leaves true kevent fd (some event) (some item) epi h = (h, refl, tt)
ctl_add-Leaves false kevent fd (some event) item epi h = none_left item
  where
    none_left :
        (o : Option Item)
        → Leaves
            (asked_for false Op.add fd (some event) o)
            epi
            (ctl_add false kevent fd (some event) o epi).1
    none_left none = (h, refl, tt)
    none_left (some x) = (h, refl, tt)
ctl_add-Leaves true kevent fd (some event) none epi h = at (accepts kevent (additions fd event))
  where
    u : Instance
    u = submit (additions fd event) epi

    after : IsUnregistered u
    after = submit-IsUnregistered (additions fd event) epi h

    at :
        (b : Bool)
        → Leaves (additions fd event) epi (
            let r : Outcome ℕ × Instance =
              if b then (ok 0, add_item u (new_item fd event)) else (err eperm, u) in
            r.1)
    at true = (
      bucket-IsUnregistered u (epoll_hash fd) (new_item fd event ∷ u.items (epoll_hash fd)) after
          (refl, after (epoll_hash fd)),
      submitted-submit (additions fd event) epi,
      additions-AllAdd fd event,
    )
    at false = (after, submitted-submit (additions fd event) epi, additions-AllAdd fd event)

ctl_del-Leaves :
    (fd : ℕ) (epi : Instance)
    → IsUnregistered epi
    → Leaves [] epi (ctl_del fd (find_item epi fd) epi).1
unfolding ctl_del
ctl_del-Leaves fd epi h = elim (Option-cases (find_item epi fd)) [
  | inl e ↦ rw e (h, refl, tt)
  | inr (x, e) ↦
      let zero = find_in-registered fd (epi.items (epoll_hash fd)) x (h (epoll_hash fd)) e in
      rw (e, no_deletions fd x zero)
        (
          bucket-IsUnregistered epi (epoll_hash x.fd) (remove_in x.fd (epi.items (epoll_hash x.fd)))
              h (remove_in-NoneRegistered x.fd (epi.items (epoll_hash x.fd)) (h (epoll_hash x.fd))),
          refl,
          tt,
        )
]

ctl_mod-Leaves :
    (memory : Bool) (kevent : Kevent) (fd : ℕ) (event : Option Event) (epi : Instance)
    → IsUnregistered epi
    → Leaves
        (asked_for memory Op.modify fd event (find_item epi fd))
        epi
        (ctl_mod kevent fd event (find_item epi fd) epi).1
unfolding ctl_mod
ctl_mod-Leaves true kevent fd none epi h = (h, refl, tt)
ctl_mod-Leaves false kevent fd none epi h = (h, refl, tt)
ctl_mod-Leaves memory kevent fd (some event) epi h = elim (Option-cases (find_item epi fd)) [
  | inl e ↦ rw e (nothing memory)
  | inr (x, e) ↦
      let zero = find_in-registered fd (epi.items (epoll_hash fd)) x (h (epoll_hash fd)) e in
      rw (e, no_deletions fd x zero) (asked memory x)
]
  where
    u : Instance
    u = change_item epi fd event

    after : IsUnregistered u
    after =
        bucket-IsUnregistered epi (epoll_hash fd) (change_in fd event (epi.items (epoll_hash fd))) h
          (change_in-NoneRegistered fd event (epi.items (epoll_hash fd)) (h (epoll_hash fd)))

    nothing : (m : Bool) → Leaves (asked_for m Op.modify fd (some event) none) epi epi
    nothing true = (h, refl, tt)
    nothing false = (h, refl, tt)

    asked :
        (m : Bool) (x : Item)
        → Leaves
            (asked_for m Op.modify fd (some event) (some x))
            epi
            (submit (additions fd event) u)
    asked true x = (
      submit-IsUnregistered (additions fd event) u after,
      submitted-submit (additions fd event) u,
      additions-AllAdd fd event,
    )
    asked false x = (
      submit-IsUnregistered (additions fd event) u after,
      submitted-submit (additions fd event) u,
      additions-AllAdd fd event,
    )

-- While no item of an instance has registered events, none has after an operation of `epoll_ctl`. An
-- addition of an item that is not there, with memory for it, and a modification of one that is there
-- make one call of kevent with the additions of their event, if there are any; every other operation,
-- a deletion of an item too, makes no call; and no change that is asked for deletes a filter.
pub ctl_op-AsksToAdd :
    (memory : Bool) (kevent : Kevent) (op : Op) (fd : ℕ) (event : Option Event) (epi : Instance)
    → IsUnregistered epi
    → Leaves
        (asked_for memory op fd event (find_item epi fd))
        epi
        (ctl_op memory kevent op fd event epi).1
ctl_op-AsksToAdd memory kevent Op.add fd event epi h =
    ctl_add-Leaves memory kevent fd event (find_item epi fd) epi h
ctl_op-AsksToAdd true kevent Op.del fd event epi h = ctl_del-Leaves fd epi h
ctl_op-AsksToAdd false kevent Op.del fd event epi h = ctl_del-Leaves fd epi h
ctl_op-AsksToAdd memory kevent Op.modify fd event epi h =
    ctl_mod-Leaves memory kevent fd event epi h
ctl_op-AsksToAdd true kevent Op.other fd event epi h = (h, refl, tt)
ctl_op-AsksToAdd false kevent Op.other fd event epi h = (h, refl, tt)
