-- ===== src/Kernel/Sigset/Laws.antt =====
-- The mask operations as a set of signals.
use ixland.Prelude.{
  ℕ, ◌-◌, ◌≡◌, refl, ap, ap₂, sym, ◌∙◌, ◌⊎◌, inl, inr, Bool, true, false, not, ◌&&◌, ◌||◌, [], ◌∷◌,
  arith, ◌==◌, if◌then◌else◌, Bool-cases,
}
use ixland.Prelude.Int.{pos}
use ixland.Fd.Files.{Outcome, ok}
use ixland.Kernel.Sigset.{
  Word, Sigset, bit_at, word_and, word_or, word_not, sigaddset, sigdelset, sigismember, sigandset,
  sigorset, signotset,
}
use ixland.Kernel.Sigset.Members.{
  IsSigset, IsSignal, added, dropped, sigismember-bit_at, sigaddset-added, sigdelset-dropped,
  bit_at-added, bit_at-dropped, length-added, length-dropped,
}

-- Adding a signal 1 to 63 succeeds; the new mask holds it, and agrees with the old one on every
-- other signal.
sigismember-sigaddset :
    (s : Sigset) (a : ℕ)
    → IsSigset s
    → IsSignal a
    → (s' : Sigset) × (sigaddset s (pos a) ≡ ok s')
      × IsSigset s'
      × ((b : ℕ)
          → IsSignal b
          → sigismember s' (pos b) ≡ (if b == a then ok true else sigismember s (pos b)))
sigismember-sigaddset s a (w, e, n) h = rw e (
  added w a ∷ [],
  sigaddset-added w a h,
  (added w a, refl, length-added w a n),
  λ b i.
      sigismember-bit_at (added w a) b i
      ∙ ap ok (bit_at-added w a b n h i)
      ∙ holds b i (Bool-cases (b == a)),
)
  where
    holds :
        (b : ℕ)
        → IsSignal b
        → ((b == a) ≡ true) ⊎ ((b == a) ≡ false)
        → ◌≡◌ {A = Outcome Bool}
            (ok (b == a || bit_at w (b - 1)))
            (if b == a then ok true else sigismember (w ∷ []) (pos b))
    holds b i (inl c) = rw c
    holds b i (inr c) = rw c (sym (sigismember-bit_at w b i))

-- Removing a signal 1 to 63 succeeds; the new mask does not hold it, and agrees with the old one
-- on every other signal.
sigismember-sigdelset :
    (s : Sigset) (a : ℕ)
    → IsSigset s
    → IsSignal a
    → (s' : Sigset) × (sigdelset s (pos a) ≡ ok s')
      × IsSigset s'
      × ((b : ℕ)
          → IsSignal b
          → sigismember s' (pos b) ≡ (if b == a then ok false else sigismember s (pos b)))
sigismember-sigdelset s a (w, e, n) h = rw e (
  dropped w a ∷ [],
  sigdelset-dropped w a h,
  (dropped w a, refl, length-dropped w a n),
  λ b i.
      sigismember-bit_at (dropped w a) b i
      ∙ ap ok (bit_at-dropped w a b h i)
      ∙ holds b i (Bool-cases (b == a)),
)
  where
    holds :
        (b : ℕ)
        → IsSignal b
        → ((b == a) ≡ true) ⊎ ((b == a) ≡ false)
        → ◌≡◌ {A = Outcome Bool}
            (ok (not (b == a) && bit_at w (b - 1)))
            (if b == a then ok false else sigismember (w ∷ []) (pos b))
    holds b i (inl c) = rw c
    holds b i (inr c) = rw c (sym (sigismember-bit_at w b i))

word_not-word_and : (v w : Word) → word_not (word_and v w) ≡ word_or (word_not v) (word_not w)
word_not-word_and [] [] = refl
word_not-word_and [] (b ∷ w) = refl
word_not-word_and (a ∷ v) [] = refl
word_not-word_and (a ∷ v) (b ∷ w) = ap₂ ◌∷◌ (ground arith) (word_not-word_and v w)

-- The complement of an intersection is the union of the complements.
signotset-sigandset :
    (l r : Sigset) → signotset (sigandset l r) ≡ sigorset (signotset l) (signotset r)
unfolding signotset sigandset sigorset
signotset-sigandset [] [] = refl
signotset-sigandset [] (w ∷ r) = refl
signotset-sigandset (v ∷ l) [] = refl
signotset-sigandset (v ∷ l) (w ∷ r) = ap₂ ◌∷◌ (word_not-word_and v w) (signotset-sigandset l r)
