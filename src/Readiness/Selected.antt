-- ===== src/Readiness/Selected.antt =====
-- select.c: which descriptors a select reports, and what it does to the sets when it fails.
use ixland.Prelude.{
  ℕ, zero, suc, ◌+◌, ◌-◌, ◌≡◌, refl, Bool, true, false, ◌&&◌, ◌||◌, not, Option, none, some, List,
  [], ◌∷◌, ◌==◌, ltb, if◌then◌else◌, Bool-cases, inl, inr, arith,
}
use ixland.Prelude.Int.{pos}
use ixland.Fd.Files.{ok}
use ixland.Epoll.{Filter}
use ixland.Readiness.{fd_setsize, Watch}
use ixland.Readiness.Poll.{Report}
use ixland.Readiness.Select.{
  FdSet, Sets, Host, is_set, all_open, build, cleared, clear_all, with_fd, record_event, is_known,
  collect, limit_of, is_null, select,
}

-- The three kinds of readiness, and the one that an event is of.
pub data Kind : Type 0 where
  readable writable exceptional : Kind

abbrev pub set_of : Kind → Sets → Option FdSet
set_of Kind.readable s = s.reads
set_of Kind.writable s = s.writes
set_of Kind.exceptional s = s.excepts

abbrev pub kind_of : Filter → Bool → Kind
kind_of Filter.read true = Kind.exceptional
kind_of Filter.read false = Kind.readable
kind_of Filter.write oob = Kind.writable

abbrev pub same_kind : Kind → Kind → Bool
same_kind Kind.readable Kind.readable = true
same_kind Kind.writable Kind.writable = true
same_kind Kind.exceptional Kind.exceptional = true
same_kind _ _ = false

-- Whether some report names descriptor `fd`, below `nfds`, as ready in that way.
abbrev pub is_reported : ℕ → ℕ → Kind → List Report → Bool
is_reported nfds fd k [] = false
is_reported nfds fd k ((udata, r) ∷ rs) =
    (is_known nfds udata && fd == udata - 1 && same_kind (kind_of r.filter r.ooband) k)
    || is_reported nfds fd k rs

-- The number of reports that name a descriptor below `nfds`.
abbrev count_known : ℕ → List Report → ℕ
count_known nfds [] = 0
count_known nfds ((udata, r) ∷ rs) = (if is_known nfds udata then 1 else 0) + count_known nfds rs

is_set-with_fd :
    (fd g : ℕ) (o : Option FdSet)
    → is_set (with_fd g o) fd ≡ (is_set o fd || (not (is_null o) && fd == g))
is_set-with_fd fd g none = refl
is_set-with_fd fd g (some set) = ground arith

is_null-with_fd : (g : ℕ) (o : Option FdSet) → is_null (with_fd g o) ≡ is_null o
is_null-with_fd g none = refl
is_null-with_fd g (some set) = refl

is_set-record_event :
    (fd g : ℕ) (k : Kind) (f : Filter) (oob : Bool) (s : Sets)
    → is_set (set_of k (record_event g f oob s)) fd ≡ (
        is_set (set_of k s) fd
        || (not (is_null (set_of k s)) && fd == g && same_kind (kind_of f oob) k))
is_set-record_event fd g Kind.readable Filter.read true s = ground arith
is_set-record_event fd g Kind.readable Filter.read false s =
    ground (arith, is_set-with_fd fd g s.reads)
is_set-record_event fd g Kind.readable Filter.write oob s = ground arith
is_set-record_event fd g Kind.writable Filter.read true s = ground arith
is_set-record_event fd g Kind.writable Filter.read false s = ground arith
is_set-record_event fd g Kind.writable Filter.write oob s =
    ground (arith, is_set-with_fd fd g s.writes)
is_set-record_event fd g Kind.exceptional Filter.read true s =
    ground (arith, is_set-with_fd fd g s.excepts)
is_set-record_event fd g Kind.exceptional Filter.read false s = ground arith
is_set-record_event fd g Kind.exceptional Filter.write oob s = ground arith

is_null-record_event :
    (g : ℕ) (k : Kind) (f : Filter) (oob : Bool) (s : Sets)
    → is_null (set_of k (record_event g f oob s)) ≡ is_null (set_of k s)
is_null-record_event g Kind.readable Filter.read true s = refl
is_null-record_event g Kind.readable Filter.read false s = is_null-with_fd g s.reads
is_null-record_event g Kind.readable Filter.write oob s = refl
is_null-record_event g Kind.writable Filter.read true s = refl
is_null-record_event g Kind.writable Filter.read false s = refl
is_null-record_event g Kind.writable Filter.write oob s = is_null-with_fd g s.writes
is_null-record_event g Kind.exceptional Filter.read true s = is_null-with_fd g s.excepts
is_null-record_event g Kind.exceptional Filter.read false s = refl
is_null-record_event g Kind.exceptional Filter.write oob s = refl

collect_lem :
    (n fd : ℕ) (k : Kind) (rs : List Report) (c : ℕ) (s : Sets)
    → ((collect n rs c s).0 ≡ c + count_known n rs)
      × (is_set (set_of k (collect n rs c s).1) fd
          ≡ (is_set (set_of k s) fd || (not (is_null (set_of k s)) && is_reported n fd k rs)))
unfolding collect
collect_lem n fd k [] c s = (omega arith, ground arith)
collect_lem n fd k ((u, r) ∷ rs) c s = elim (Bool-cases (is_known n u)) [
  | inl e ↦
      let after = record_event (u - 1) r.filter r.ooband s in
      let (count, member) = collect_lem n fd k rs (c + 1) after in
      let now = is_set-record_event fd (u - 1) k r.filter r.ooband s in
      let null = is_null-record_event (u - 1) k r.filter r.ooband s in
      rw e (ground arith, ground arith)
  | inr e ↦ let (count, member) = collect_lem n fd k rs c s in rw e (ground arith, ground arith)
]

-- A select whose descriptors are open and whose queue, arrays and kevent succeed, with the changes
-- `w ∷ ws` and the reports `rs`.
abbrev pub Succeeds : Host → ℕ → Sets → Option (ℕ × ℕ) → Watch → List Watch → List Report → Type 0
Succeeds host n s timeout w ws rs =
    (host.has_queue ≡ true)
    × (host.has_changes ≡ true)
    × (host.has_events ≡ true)
    × (ltb fd_setsize n ≡ false)
    × (all_open host.is_open s n 0 ≡ true)
    × (build host.stays_open s n 0 ≡ some (w ∷ ws))
    × (host.kevent (w ∷ ws) (limit_of timeout) ≡ ok rs)

pub is_set_null : (o : Option FdSet) (fd : ℕ) → is_null o ≡ true → is_set o fd ≡ false
is_set_null none fd h = refl
is_set_null (some set) fd h = cc

pub is_set-cleared : (o : Option FdSet) (fd : ℕ) → is_set (cleared o) fd ≡ false
is_set-cleared none fd = refl
is_set-cleared (some set) fd = refl

is_null-cleared : (o : Option FdSet) → is_null (cleared o) ≡ is_null o
is_null-cleared none = refl
is_null-cleared (some set) = refl

build_null :
    (o : ℕ → Bool) (s : Sets) (n fd : ℕ)
    → (is_null s.reads && is_null s.writes && is_null s.excepts) ≡ true
    → build o s n fd ≡ some []
unfolding build
build_null o s zero fd h = refl
build_null o s (suc n) fd h =
    let rest = build_null o s n (suc fd) h in
    let r = is_set_null s.reads fd in
    let w = is_set_null s.writes fd in
    let e = is_set_null s.excepts fd in ground (arith, r, w, e, rest)

-- With a change to ask for, the early return of select is not taken.
pub is_waiting :
    (o : ℕ → Bool) (s : Sets) (n : ℕ) {w : Watch} {ws : List Watch}
    → build o s n 0 ≡ some (w ∷ ws)
    → (n == 0 || (is_null s.reads && is_null s.writes && is_null s.excepts)) ≡ false
unfolding build
is_waiting o s zero h = cc
is_waiting o s (suc n) h =
    elim (Bool-cases (is_null s.reads && is_null s.writes && is_null s.excepts)) [
      | inl e ↦ cc (build_null o s (suc n) 0 e)
      | inr e ↦ rw e (ground arith)
    ]

set_of-clear_all :
    (fd : ℕ) (k : Kind) (s : Sets) (b r : Bool)
    → b ≡ (is_set (set_of k (clear_all s)) fd || (not (is_null (set_of k (clear_all s))) && r))
    → b ≡ (not (is_null (set_of k s)) && r)
set_of-clear_all fd Kind.readable s b r h =
    ground (arith, is_set-cleared s.reads fd, is_null-cleared s.reads)
set_of-clear_all fd Kind.writable s b r h =
    ground (arith, is_set-cleared s.writes fd, is_null-cleared s.writes)
set_of-clear_all fd Kind.exceptional s b r h =
    ground (arith, is_set-cleared s.excepts fd, is_null-cleared s.excepts)

pub select-reports :
    (host : Host) (n : ℕ) (s : Sets) (timeout : Option (ℕ × ℕ)) (w : Watch) (ws : List Watch)
    (rs : List Report) (fd : ℕ) (k : Kind)
    → Succeeds host n s timeout w ws rs
    → (after : Sets) × (select host (pos n) s timeout ≡ (ok (count_known n rs), after))
      × (is_set (set_of k after) fd ≡ (not (is_null (set_of k s)) && is_reported n fd k rs))
unfolding select
select-reports host n s timeout w ws rs fd k (q, c, v, l, o, b, e) =
    let (count, member) = collect_lem n fd k rs 0 (clear_all s) in
    (
      (collect n rs 0 (clear_all s)).1,
      rw (l, is_waiting host.stays_open s n b, o, q, c, b, v, e) (ground arith),
      set_of-clear_all fd k s _ _ member,
    )
