-- ===== src/Kernel/Sigset/Members.antt =====
-- Which signals the masks hold after each operation.
use ixland.Prelude.{
  ℕ, zero, suc, ◌-◌, ◌/◌, ◌%◌, ◌<◌, ◌≤◌, ◌≡◌, refl, ap, sym, ◌∙◌, Bool, true, false, not, ◌&&◌,
  ◌||◌, [], ◌∷◌, arith, ◌==◌, replicate, length, length-replicate,
}
use ixland.Prelude.Int.{pos}
use ixland.Fd.Files.{ok}
use ixland.Kernel.Sigset.{
  nsig, word_bits, Word, Sigset, bit_at, one_at, word_and, word_or, word_not, is_nonzero, is_signal,
  sigaddset, sigdelset, sigismember,
}

||_comm : (a b : Bool) → (a || b) ≡ (b || a)
||_comm a b = ground arith

&&_comm : (a b : Bool) → (a && b) ≡ (b && a)
&&_comm a b = ground arith

length-one_at : (n i : ℕ) → length (one_at n i) ≡ n
length-one_at zero i = refl
length-one_at (suc n) zero = ap suc (length-replicate n false)
length-one_at (suc n) (suc i) = ap suc (length-one_at n i)

bit_at-word_and : (v w : Word) (i : ℕ) → bit_at (word_and v w) i ≡ (bit_at v i && bit_at w i)
bit_at-word_and [] [] i = refl
bit_at-word_and [] (b ∷ w) i = refl
bit_at-word_and (a ∷ v) [] i = ground arith
bit_at-word_and (a ∷ v) (b ∷ w) zero = refl
bit_at-word_and (a ∷ v) (b ∷ w) (suc i) = bit_at-word_and v w i

bit_at-word_or :
    (v w : Word) (i : ℕ) → length v ≡ length w → bit_at (word_or v w) i ≡ (bit_at v i || bit_at w i)
bit_at-word_or [] [] i e = refl
bit_at-word_or [] (b ∷ w) i e = absurd (omega arith)
bit_at-word_or (a ∷ v) [] i e = absurd (omega arith)
bit_at-word_or (a ∷ v) (b ∷ w) zero e = refl
bit_at-word_or (a ∷ v) (b ∷ w) (suc i) e = bit_at-word_or v w i (omega arith)

bit_at-word_not : (w : Word) (i : ℕ) → i < length w → bit_at (word_not w) i ≡ not (bit_at w i)
bit_at-word_not [] i h = elim h [ ]
bit_at-word_not (b ∷ w) zero h = refl
bit_at-word_not (b ∷ w) (suc i) h = bit_at-word_not w i (omega arith)

bit_at-zeros : (n i : ℕ) → bit_at (replicate n false) i ≡ false
bit_at-zeros zero i = refl
bit_at-zeros (suc n) zero = refl
bit_at-zeros (suc n) (suc i) = bit_at-zeros n i

bit_at-one_at : (n i j : ℕ) → i < n → bit_at (one_at n i) j ≡ (j == i)
bit_at-one_at zero i j h = elim h [ ]
bit_at-one_at (suc n) zero zero h = ground arith
bit_at-one_at (suc n) zero (suc j) h = ground (arith, bit_at-zeros n j)
bit_at-one_at (suc n) (suc i) zero h = ground arith
bit_at-one_at (suc n) (suc i) (suc j) h = ground (arith, bit_at-one_at n i j)

-- Masking with one bit tests that bit.
no_bits : (w : Word) (n : ℕ) → is_nonzero (word_and w (replicate n false)) ≡ false
no_bits [] zero = refl
no_bits [] (suc n) = refl
no_bits (b ∷ w) zero = refl
no_bits (b ∷ w) (suc n) = ground (arith, no_bits w n)

is_nonzero-one_at : (w : Word) (n i : ℕ) → i < n → is_nonzero (word_and w (one_at n i)) ≡ bit_at w i
is_nonzero-one_at w zero i h = elim h [ ]
is_nonzero-one_at [] (suc n) zero h = refl
is_nonzero-one_at [] (suc n) (suc i) h = refl
is_nonzero-one_at (b ∷ w) (suc n) zero h = ground (arith, no_bits w n)
is_nonzero-one_at (b ∷ w) (suc n) (suc i) h = ground (arith, is_nonzero-one_at w n i)

length-word_and : (v w : Word) → length v ≡ length w → length (word_and v w) ≡ length v
length-word_and [] [] e = refl
length-word_and [] (b ∷ w) e = refl
length-word_and (a ∷ v) [] e = absurd (omega arith)
length-word_and (a ∷ v) (b ∷ w) e = ap suc (length-word_and v w (omega arith))

length-word_or : (v w : Word) → length v ≡ length w → length (word_or v w) ≡ length v
length-word_or [] [] e = refl
length-word_or [] (b ∷ w) e = refl
length-word_or (a ∷ v) [] e = absurd (omega arith)
length-word_or (a ∷ v) (b ∷ w) e = ap suc (length-word_or v w (omega arith))

length-word_not : (w : Word) → length (word_not w) ≡ length w
length-word_not [] = refl
length-word_not (b ∷ w) = ap suc (length-word_not w)

-- A mask of the one word of 64 bits.
abbrev pub IsSigset : Sigset → Type 0
IsSigset s = (w : Word) × (s ≡ w ∷ []) × (length w ≡ word_bits)

abbrev pub IsSignal : ℕ → Type 0
IsSignal sig = (1 ≤ sig) × (sig < nsig)

in_range : (sig : ℕ) → IsSignal sig → is_signal sig ≡ true
in_range sig h = ground arith

first_word : (sig : ℕ) → IsSignal sig → (sig - 1) / word_bits ≡ 0
first_word sig h = omega arith

own_bit : (sig : ℕ) → IsSignal sig → (sig - 1) % word_bits ≡ sig - 1
own_bit sig h = omega arith

pub sigismember-bit_at :
    (w : Word) (sig : ℕ) → IsSignal sig → sigismember (w ∷ []) (pos sig) ≡ ok (bit_at w (sig - 1))
unfolding sigismember
sigismember-bit_at w sig h = rw (in_range sig h) (
    rw (first_word sig h, own_bit sig h)
      (ap ok (is_nonzero-one_at w word_bits (sig - 1) (omega arith))))

pub added : Word → ℕ → Word
added w sig = word_or w (one_at word_bits (sig - 1))

pub dropped : Word → ℕ → Word
dropped w sig = word_and w (word_not (one_at word_bits (sig - 1)))

pub sigaddset-added :
    (w : Word) (sig : ℕ) → IsSignal sig → sigaddset (w ∷ []) (pos sig) ≡ ok (added w sig ∷ [])
unfolding sigaddset added
sigaddset-added w sig h = rw (in_range sig h) (rw (first_word sig h, own_bit sig h))

pub sigdelset-dropped :
    (w : Word) (sig : ℕ) → IsSignal sig → sigdelset (w ∷ []) (pos sig) ≡ ok (dropped w sig ∷ [])
unfolding sigdelset dropped
sigdelset-dropped w sig h = rw (in_range sig h) (rw (first_word sig h, own_bit sig h))

same_bit : (a b : ℕ) → IsSignal a → IsSignal b → (b - 1 == a - 1) ≡ (b == a)
same_bit a b h i = ground arith

pub bit_at-added :
    (w : Word) (a b : ℕ)
    → length w ≡ word_bits
    → IsSignal a
    → IsSignal b
    → bit_at (added w a) (b - 1) ≡ (b == a || bit_at w (b - 1))
unfolding added
bit_at-added w a b e h i =
    bit_at-word_or w (one_at word_bits (a - 1)) (b - 1) (e ∙ sym (length-one_at word_bits (a - 1)))
    ∙ ap (λ x. bit_at w (b - 1) || x)
        (bit_at-one_at word_bits (a - 1) (b - 1) (omega arith) ∙ same_bit a b h i)
    ∙ ||_comm (bit_at w (b - 1)) (b == a)

pub bit_at-dropped :
    (w : Word) (a b : ℕ)
    → IsSignal a
    → IsSignal b
    → bit_at (dropped w a) (b - 1) ≡ (not (b == a) && bit_at w (b - 1))
unfolding dropped
bit_at-dropped w a b h i =
    bit_at-word_and w (word_not (one_at word_bits (a - 1))) (b - 1)
    ∙ ap (λ x. bit_at w (b - 1) && x)
        (bit_at-word_not (one_at word_bits (a - 1)) (b - 1)
            (omega (arith, length-one_at word_bits (a - 1)))
          ∙ ap not (bit_at-one_at word_bits (a - 1) (b - 1) (omega arith) ∙ same_bit a b h i))
    ∙ &&_comm (bit_at w (b - 1)) (not (b == a))

pub length-added : (w : Word) (sig : ℕ) → length w ≡ word_bits → length (added w sig) ≡ word_bits
unfolding added
length-added w sig e = length-word_or w _ (e ∙ sym (length-one_at word_bits (sig - 1))) ∙ e

pub length-dropped :
    (w : Word) (sig : ℕ) → length w ≡ word_bits → length (dropped w sig) ≡ word_bits
unfolding dropped
length-dropped w sig e =
    length-word_and w _
      (e ∙ sym (length-word_not (one_at word_bits (sig - 1)) ∙ length-one_at word_bits (sig - 1)))
    ∙ e
