-- ===== src/Examples/Polls.antt =====
-- poll and select on a host that knows the descriptors 3 and 4.
use ixland.Prelude.{ℕ, Bool, ◌≡◌, ◌||◌, refl, true, false, none, some, List, [], ◌∷◌, ◌==◌}
use ixland.Prelude.Int.{pos}
use ixland.Fd.Files.{ok}
use ixland.Epoll.{Filter, Reported}
use ixland.Readiness.{pollin, Watch}
use ixland.Readiness.Poll.{PollFd, Host}
use ixland.Readiness.Select.{Sets, empty_set, add_fd, is_null, all_open, build, select}
use ixland.Readiness.Select
use ixland.Readiness.Selected.{Kind}
use ixland.Readiness.Requested.{is_asked, select-requested}

abbrev is_known : ℕ → Bool
is_known fd = fd == 3 || fd == 4

abbrev readable : Reported
readable = record { filter = Filter.read; ooband = false; error = false; eof = true }

abbrev asked_for : ℕ → ℕ → Watch
asked_for fd i = record { ident = fd; filter = Filter.read; oob = false; udata = i }

abbrev poll_host : Host
poll_host = record {
  is_open = is_known;
  has_queue = true;
  has_changes = true;
  has_events = true;
  kevent = λ ws n limit. ok ((0, readable) ∷ []);
}

abbrev two_entries : List PollFd
two_entries =
    record { fd = pos 3; events = pollin; revents = 0 }
    ∷ record { fd = pos 9; events = pollin; revents = 0 }
    ∷ []

abbrev select_host : Select.Host
select_host = record {
  is_open = is_known;
  stays_open = is_known;
  has_queue = true;
  has_changes = true;
  has_events = true;
  kevent = λ ws limit. ok ((4, readable) ∷ []);
}

abbrev wait_to_read : Sets
wait_to_read = record {
  reads = some (add_fd 4 (add_fd 3 empty_set));
  writes = none;
  excepts = none;
}

select-requested_example : (is_asked Filter.read wait_to_read 3 ≡ true) × (is_known 3 ≡ true)
unfolding build all_open select
select-requested_example =
    select-requested select_host 5 wait_to_read none (asked_for 3 4) (asked_for 4 5 ∷ [])
      ((4, readable) ∷ []) 3 Kind.readable (refl, refl, refl, refl, refl, refl, refl) (refl, tt)
      refl
