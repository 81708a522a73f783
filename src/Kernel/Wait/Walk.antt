-- ===== src/Kernel/Wait/Walk.antt =====
-- What the walk along the children finds, and the waits that no change of a child ends.
use ixland.Prelude.{
  ◌≡◌, refl, ap, ◌⊎◌, inl, inr, Bool, true, false, Option, none, some, List, [], ◌∷◌, ◌++◌, arith,
  ◌==◌, Bool-cases, ==_refl, has,
}
use ixland.Fd.Files.{Ptr}
use ixland.Kernel.{Task, Kernel}
use ixland.Kernel.Wait.{find_child}

-- Every task of the chain fails the test.
abbrev pub AllFail : (Ptr → Option Task) → (Task → Bool) → List Ptr → Type 0
AllFail tasks test chain =
    (q : Ptr) → has q chain ≡ true → (u : Task) × (tasks q ≡ some u) × (test u ≡ false)

abbrev pub AreLive : (Ptr → Option Task) → List Ptr → Type 0
AreLive tasks chain = (q : Ptr) → has q chain ≡ true → (u : Task) × (tasks q ≡ some u)

module _ (tasks : Ptr → Option Task) (test : Task → Bool) where
  -- Along a chain of live tasks the walk yields the first that passes the test, and NULL exactly
  -- when none passes.
  find_child_cases :
      (chain : List Ptr)
      → AreLive tasks chain
      → ((find_child tasks test chain ≡ some none) × AllFail tasks test chain)
        ⊎ ((p : Ptr) × (t : Task) × (before after : List Ptr) × (find_child tasks test chain
              ≡ some (some p))
            × (tasks p ≡ some t)
            × (test t ≡ true)
            × (chain ≡ before ++ (p ∷ after))
            × AllFail tasks test before)
  unfolding find_child
  find_child_cases [] live = inl (refl, λ q i. cc)
  find_child_cases (p ∷ chain) live =
      let (t, e) = live p (rw (==_refl p)) in
      elim (Bool-cases (test t)) [
        | inl f ↦ inr (p, t, [], chain, rw (find_child, e) (rw f), e, f, refl, λ q i. cc)
        | inr f ↦ elim (find_child_cases chain (λ q i. live q (ground arith))) [
          | inl (g, fails) ↦ inl (rw (find_child, e) (rw f g), first_fails p chain t e f fails)
          | inr (q, u, before, after, g, eq, passes, split, fails) ↦ inr (
            q,
            u,
            p ∷ before,
            after,
            rw (find_child, e) (rw f g),
            eq,
            passes,
            ap (◌∷◌ p) split,
            first_fails p before t e f fails,
          )
        ]
      ]
    where
      first_fails :
          (p : Ptr) (chain : List Ptr) (t : Task)
          → tasks p ≡ some t
          → test t ≡ false
          → AllFail tasks test chain
          → AllFail tasks test (p ∷ chain)
      first_fails p chain t e f fails q i = elim (Bool-cases (q == p)) [
        | inl c ↦ (t, ground arith, f)
        | inr c ↦ fails q (ground arith)
      ]
