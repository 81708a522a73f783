-- ===== src/Epoll/Interests.antt =====
-- eventpoll.c: epoll_ctl on the buckets of an instance is epoll_ctl on a map from numbers to events.
use ixland.Prelude.{
  ℕ, ◌≡◌, ◌≢◌, refl, ap, sym, ◌∙◌, Bool, true, false, not, Option, none, some, List, [], ◌∷◌, ◌==◌,
  arith, Bool-cases, Option-cases, inl, inr, if◌then◌else◌, ==_refl,
}
use ixland.Fd.Errno.{einval, enomem, enoent, eexist, eperm}
use ixland.Fd.Files.{Outcome, ok, err}
use ixland.Epoll.{
  Event, Item, Instance, Kevent, Op, epoll_hash, find_in, find_item, remove_in, change_in, add_item,
  remove_item, change_item, with_bucket, new_item, accepts, additions, deletions, submit, ctl_add,
  ctl_del, ctl_mod, ctl_op,
}
use ixland.Epoll.Items.{
  IsDistinct, event_of, find_in-remove_in_self, find_in-remove_in_other, remove_in-IsDistinct,
  find_in-change_in_self, find_in-change_in_other, change_in-IsDistinct, find_in-fd,
}

-- What is watched: a number's event, if it has one.
abbrev Watched : Type 0
Watched = ℕ → Option Event

abbrev pub watch : ℕ → Option Event → Watched → Watched
watch fd o m = λ g. if g == fd then o else m g

abbrev spec_add : Bool → Bool → ℕ → Option Event → Option Event → Watched → Outcome ℕ × Watched
spec_add memory taken fd none here m = (err einval, m)
spec_add memory taken fd (some event) (some old) m = (err eexist, m)
spec_add memory taken fd (some event) none m =
    if not memory
    then (err enomem, m)
    else if taken
    then (ok 0, watch fd (some event) m)
    else (err eperm, m)

abbrev spec_del : ℕ → Option Event → Watched → Outcome ℕ × Watched
spec_del fd none m = (err enoent, m)
spec_del fd (some old) m = (ok 0, watch fd none m)

abbrev spec_mod : Bool → ℕ → Option Event → Option Event → Watched → Outcome ℕ × Watched
spec_mod taken fd none here m = (err einval, m)
spec_mod taken fd (some event) none m = (err enoent, m)
spec_mod taken fd (some event) (some old) m =
    (if taken then ok 0 else err eperm, watch fd (some event) m)

-- Whether the host takes the changes of an event.
abbrev pub takes : Kevent → ℕ → Option Event → Bool
takes kevent fd none = true
takes kevent fd (some event) = accepts kevent (additions fd event)

-- epoll_ctl on the map.
abbrev spec_ctl : Bool → Kevent → Op → ℕ → Option Event → Watched → Outcome ℕ × Watched
spec_ctl memory kevent Op.add fd event m = spec_add memory (takes kevent fd event) fd event (m fd) m
spec_ctl memory kevent Op.del fd event m = spec_del fd (m fd) m
spec_ctl memory kevent Op.modify fd event m = spec_mod (takes kevent fd event) fd event (m fd) m
spec_ctl memory kevent Op.other fd event m = (err einval, m)

-- No bucket has a number twice, and what is found in the buckets is the map.
abbrev pub Refines : Instance → Watched → Type 0
Refines epi m = ((b : ℕ) → IsDistinct (epi.items b)) × ((g : ℕ) → event_of (find_item epi g) ≡ m g)

abbrev pub Simulates : Outcome ℕ × Instance → Outcome ℕ × Watched → Type 0
Simulates r s = (r.0 ≡ s.0) × Refines r.1 s.1

submit-items : (cs : List _) (epi : Instance) → (submit cs epi).items ≡ epi.items
submit-items [] epi = refl
submit-items (c ∷ cs) epi = refl

-- A new bucket for a number: what is found of it and of the others.
with_bucket-Refines :
    (epi : Instance) (m : Watched) (fd : ℕ) (xs : List Item) (o : Option Event)
    → Refines epi m
    → IsDistinct xs
    → event_of (find_in fd xs) ≡ o
    → ((g : ℕ) → g ≢ fd → find_in g xs ≡ find_in g (epi.items (epoll_hash fd)))
    → Refines (with_bucket epi (epoll_hash fd) xs) (watch fd o m)
with_bucket-Refines epi m fd xs o (distinct, same) new here others = (every, look)
  where
    every : (b : ℕ) → IsDistinct ((with_bucket epi (epoll_hash fd) xs).items b)
    every b = elim (Bool-cases (b == epoll_hash fd)) [
      | inl e ↦ rw e new
      | inr e ↦ rw e (distinct b)
    ]

    look : (g : ℕ) → event_of (find_item (with_bucket epi (epoll_hash fd) xs) g) ≡ watch fd o m g
    look g = elim (Bool-cases (g == fd)) [
      | inl e ↦
          let q : g ≡ fd = ground arith in
          rw e (
            ap (λ h. event_of (find_item (with_bucket epi (epoll_hash fd) xs) h)) q
            ∙ rw (==_refl (epoll_hash fd)) here)
      | inr e ↦ rw e (elim (Bool-cases (epoll_hash g == epoll_hash fd)) [
        | inl f ↦
            let q : epoll_hash g ≡ epoll_hash fd = ground arith in
            rw f (
              ap event_of (others g (ground arith))
              ∙ ap (λ b. event_of (find_in g (epi.items b))) (sym q)
              ∙ same g)
        | inr f ↦ rw f (same g)
      ])
    ]

submit-Refines :
    (cs : List _) (epi : Instance) (m : Watched) → Refines epi m → Refines (submit cs epi) m
submit-Refines [] epi m h = h
submit-Refines (c ∷ cs) epi m h = h

add_item-Refines :
    (epi : Instance) (m : Watched) (fd : ℕ) (event : Event)
    → Refines epi m
    → find_item epi fd ≡ none
    → Refines (add_item epi (new_item fd event)) (watch fd (some event) m)
unfolding find_in
add_item-Refines epi m fd event h missing =
    with_bucket-Refines epi m fd (new_item fd event ∷ epi.items (epoll_hash fd)) (some event) h
      (missing, h.0 (epoll_hash fd)) (rw (==_refl fd) refl)
      (λ g ne. let q : (fd == g) ≡ false = ground arith in rw q refl)

remove_item-Refines :
    (epi : Instance) (m : Watched) (fd : ℕ)
    → Refines epi m
    → Refines (remove_item epi fd) (watch fd none m)
remove_item-Refines epi m fd h =
    with_bucket-Refines epi m fd (remove_in fd (epi.items (epoll_hash fd))) none h
      (remove_in-IsDistinct fd (epi.items (epoll_hash fd)) (h.0 (epoll_hash fd)))
      (ap event_of (find_in-remove_in_self fd (epi.items (epoll_hash fd)) (h.0 (epoll_hash fd))))
      (λ g ne. find_in-remove_in_other fd g (epi.items (epoll_hash fd)) ne)

change_item-Refines :
    (epi : Instance) (m : Watched) (fd : ℕ) (event : Event) (x : Item)
    → Refines epi m
    → find_item epi fd ≡ some x
    → Refines (change_item epi fd event) (watch fd (some event) m)
change_item-Refines epi m fd event x h here =
    with_bucket-Refines epi m fd (change_in fd event (epi.items (epoll_hash fd))) (some event) h
      (change_in-IsDistinct fd event (epi.items (epoll_hash fd)) (h.0 (epoll_hash fd)))
      (find_in-change_in_self fd event (epi.items (epoll_hash fd)) x here)
      (λ g ne. find_in-change_in_other fd g event (epi.items (epoll_hash fd)) ne)

submit-find :
    (cs : List _) (epi : Instance) (fd : ℕ) → find_item (submit cs epi) fd ≡ find_item epi fd
submit-find [] epi fd = refl
submit-find (c ∷ cs) epi fd = refl

ctl_add-Simulates :
    (memory : Bool) (kevent : Kevent) (fd : ℕ) (event : Option Event) (epi : Instance) (m : Watched)
    → Refines epi m
    → Simulates
        (ctl_add memory kevent fd event (find_item epi fd) epi)
        (spec_ctl memory kevent Op.add fd event m)
unfolding ctl_add
ctl_add-Simulates memory kevent fd none epi m h = (refl, h)
ctl_add-Simulates memory kevent fd (some event) epi m h = elim (Option-cases (find_item epi fd)) [
  | inr (x, e) ↦ (let q : m fd ≡ some x.event = sym (h.1 fd) ∙ ap event_of e in rw (e, q) (refl, h))
  | inl e ↦
      let q : m fd ≡ none = sym (h.1 fd) ∙ ap event_of e in
      let cs = additions fd event in
      rw (e, q)
        (chosen memory (accepts kevent cs) (submit-Refines cs epi m h) (
          add_item-Refines (submit cs epi) m fd event (submit-Refines cs epi m h)
            (submit-find cs epi fd ∙ e)))
]
  where
    chosen :
        (a b : Bool)
        → Refines (submit (additions fd event) epi) m
        → Refines
            (add_item (submit (additions fd event) epi) (new_item fd event))
            (watch fd (some event) m)
        → Simulates
            (if not a
              then (err enomem, epi)
              else if b
              then (ok 0, add_item (submit (additions fd event) epi) (new_item fd event))
              else (err eperm, submit (additions fd event) epi))
            (if not a
              then (err enomem, m)
              else if b
              then (ok 0, watch fd (some event) m)
              else (err eperm, m))
    chosen false b k l = (refl, h)
    chosen true true k l = (refl, l)
    chosen true false k l = (refl, k)

ctl_del-Simulates :
    (memory : Bool) (kevent : Kevent) (fd : ℕ) (event : Option Event) (epi : Instance) (m : Watched)
    → Refines epi m
    → Simulates (ctl_del fd (find_item epi fd) epi) (spec_ctl memory kevent Op.del fd event m)
unfolding ctl_del
ctl_del-Simulates memory kevent fd event epi m h = elim (Option-cases (find_item epi fd)) [
  | inl e ↦ (let q : m fd ≡ none = sym (h.1 fd) ∙ ap event_of e in rw (e, q) (refl, h))
  | inr (x, e) ↦
      let q : m fd ≡ some x.event = sym (h.1 fd) ∙ ap event_of e in
      let f : x.fd ≡ fd = find_in-fd fd (epi.items (epoll_hash fd)) x e in
      let u = submit (deletions fd x) epi in
      rw (e, q) (refl, rw f (remove_item-Refines u m fd (submit-Refines (deletions fd x) epi m h)))
]

ctl_mod-Simulates :
    (memory : Bool) (kevent : Kevent) (fd : ℕ) (event : Option Event) (epi : Instance) (m : Watched)
    → Refines epi m
    → Simulates
        (ctl_mod kevent fd event (find_item epi fd) epi)
        (spec_ctl memory kevent Op.modify fd event m)
unfolding ctl_mod
ctl_mod-Simulates memory kevent fd none epi m h = (refl, h)
ctl_mod-Simulates memory kevent fd (some event) epi m h = elim (Option-cases (find_item epi fd)) [
  | inl e ↦ (let q : m fd ≡ none = sym (h.1 fd) ∙ ap event_of e in rw (e, q) (refl, h))
  | inr (x, e) ↦
      let q : m fd ≡ some x.event = sym (h.1 fd) ∙ ap event_of e in
      let u = submit (deletions fd x) epi in
      rw (e, q)
        (
          refl,
          submit-Refines (additions fd event) (change_item u fd event) (watch fd (some event) m) (
              change_item-Refines u m fd event x (submit-Refines (deletions fd x) epi m h)
                (submit-find (deletions fd x) epi fd ∙ e)),
        )
]

-- An instance whose buckets have no number twice and stand for a map from numbers to events: every
-- operation of `epoll_ctl` on it answers what the operation on the map answers, whatever the host says
-- of memory and of the changes, and leaves buckets that stand for the map that this one leaves. A
-- change of an event that the host refuses is in the map all the same.
pub ctl_op-Simulates :
    (memory : Bool) (kevent : Kevent) (op : Op) (fd : ℕ) (event : Option Event) (epi : Instance)
    (m : Watched)
    → Refines epi m
    → Simulates (ctl_op memory kevent op fd event epi) (spec_ctl memory kevent op fd event m)
ctl_op-Simulates memory kevent Op.add fd event epi m h =
    ctl_add-Simulates memory kevent fd event epi m h
ctl_op-Simulates memory kevent Op.del fd event epi m h =
    ctl_del-Simulates memory kevent fd event epi m h
ctl_op-Simulates memory kevent Op.modify fd event epi m h =
    ctl_mod-Simulates memory kevent fd event epi m h
ctl_op-Simulates memory kevent Op.other fd event epi m h = (refl, h)
