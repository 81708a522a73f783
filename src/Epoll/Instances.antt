-- ===== src/Epoll/Instances.antt =====
-- eventpoll.c: creating, finding and dropping instances.
use ixland.Prelude.{
  ℕ, zero, suc, ◌+◌, ◌-◌, ◌≡◌, ◌≢◌, refl, ap, sym, ◌∙◌, true, false, none, some, arith, ◌==◌, ltb,
  leb, Bool-cases, Option-cases, ◌⊎◌, inl, inr, ◌<◌, ◌≤◌, ==_refl,
}
use ixland.Prelude.Int.{pos}
use ixland.Fd.Errno.{emfile}
use ixland.Fd.Files.{ok, err}
use ixland.Fd.Static.{max_fd}
use ixland.Epoll.{Instance}
use ixland.Epoll.Table.{
  EpollTable, max_instances, first_null, put_instance, lookup_instance, unregister_instance,
  new_instance, is_bad_flags, epoll_create1,
}

first_null_cases :
    (rounds i : ℕ) (table : EpollTable)
    → ((first_null rounds i table ≡ none) × ((j : ℕ) → i ≤ j → j < i + rounds → table j ≢ none))
      ⊎ ((k : ℕ) × (first_null rounds i table ≡ some k)
          × (i ≤ k)
          × (k < i + rounds)
          × (table k ≡ none))
unfolding first_null
first_null_cases zero i table = inl (refl, λ j a b. absurd (omega (arith, a, b)))
first_null_cases (suc rounds) i table = elim (Option-cases (table i)) [
  | inl free ↦ inr (i, rw (first_null, free) refl, omega arith, omega arith, free)
  | inr (epi, taken) ↦ elim (first_null_cases rounds (i + 1) table) [
    | inl (e, all) ↦
        inl (rw (first_null, taken) e, λ j a b. one_more epi taken all j a b (Bool-cases (j == i)))
    | inr (k, e, low, high, free) ↦
        inr (k, rw (first_null, taken) e, omega arith, omega arith, free)
  ]
]
  where
    one_more :
        (epi : Instance)
        → table i ≡ some epi
        → ((j : ℕ) → i + 1 ≤ j → j < (i + 1) + rounds → table j ≢ none)
        → (j : ℕ) → i ≤ j
        → j < i + suc rounds
        → ((j == i) ≡ true) ⊎ ((j == i) ≡ false)
        → table j ≢ none
    one_more epi taken all j a b (inl c) =
        let here : j ≡ i = ground arith in
        λ q. (let bad : some epi ≡ none = sym taken ∙ ap table (sym here) ∙ q in cc)
    one_more epi taken all j a b (inr c) = all j (ground arith) (omega arith)

-- When `epoll_create1` is given good flags, memory and a kqueue, either all the 256 places are taken,
-- and it fails with EMFILE and changes nothing; or it gives a number from 356 to 611 under which no
-- instance was, under which the new, empty one is found, and which dropping makes free again with every
-- place as before.
epoll_create1_cases :
    (kq flags : ℕ) (table : EpollTable)
    → is_bad_flags flags ≡ false
    → (((j : ℕ) → j < max_instances → table j ≢ none)
        × (epoll_create1 true (some kq) true flags table ≡ (err emfile, table)))
      ⊎ ((epfd : ℕ) × (after : EpollTable) × (epoll_create1 true (some kq) true flags table
            ≡ (ok epfd, after))
          × (356 ≤ epfd)
          × (epfd ≤ 611)
          × (lookup_instance (pos epfd) table ≡ none)
          × (lookup_instance (pos epfd) after ≡ some (new_instance kq flags))
          × ((j : ℕ) → unregister_instance (pos epfd) after j ≡ table j))
unfolding epoll_create1 lookup_instance unregister_instance
epoll_create1_cases kq flags table good = elim (first_null_cases max_instances 0 table) [
  | inl (e, all) ↦ inl (λ j b. all j (omega arith) (omega arith), rw (good, e) refl)
  | inr (k, e, low, high, free) ↦
      let i : (k + max_fd + 100) - max_fd - 100 ≡ k = omega arith in
      let a : ltb (k + max_fd + 100) (max_fd + 100) ≡ false = ground arith in
      let b : leb max_instances k ≡ false = ground arith in
      inr (
        k + max_fd + 100,
        put_instance table k (some (new_instance kq flags)),
        rw (good, e) refl,
        omega arith,
        omega arith,
        rw (i, a, b) free,
        rw (i, a, b) (rw (==_refl k) refl),
        λ j. rw (i, a, b) (restored k free j (Bool-cases (j == k))),
      )
]
  where
    restored :
        (k : ℕ)
        → table k ≡ none
        → (j : ℕ) → ((j == k) ≡ true) ⊎ ((j == k) ≡ false)
        → put_instance (put_instance table k (some (new_instance kq flags))) k none j ≡ table j
    restored k free j (inl c) =
        let here : j ≡ k = ground arith in rw c (sym free ∙ ap table (sym here))
    restored k free j (inr c) = rw c refl
