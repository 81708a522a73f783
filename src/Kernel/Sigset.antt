-- ===== src/Kernel/Sigset.antt =====
-- IXLandSystem/kernel/signal.c, second part, and include/ixland/ixland_signal.h: signal masks as an
-- array of words. A word is the list of its 64 bits, lowest first (`unsigned long` on 64-bit iOS),
-- so the array has one word.
pub mod Members
pub mod Laws
pub mod Host
use ixland.Prelude.{
  ℕ, zero, suc, ◌==◌, ◌+◌, ◌-◌, ◌/◌, ◌%◌, ◌*◌, Bool, true, false, not, ◌&&◌, ◌||◌, Option, none,
  some, List, [], ◌∷◌, map, ltb, leb, if◌then◌else◌, get_elem?, set, replicate,
}
use ixland.Prelude.Int.{ℤ, pos, negsuc}
use ixland.Fd.Errno.{einval}
use ixland.Fd.Files.{Outcome, ok, err}

abbrev pub nsig : ℕ
nsig = 64

abbrev pub word_bits : ℕ
word_bits = 64

abbrev nsig_words : ℕ
nsig_words = nsig / word_bits

abbrev pub Word : Type 0
Word = List Bool

abbrev pub Sigset : Type 0
Sigset = List Word

abbrev pub bit_at : Word → ℕ → Bool
bit_at [] i = false
bit_at (b ∷ w) zero = b
bit_at (b ∷ w) (suc i) = bit_at w i

-- `1UL << bit`, in a word of so many bits.
abbrev pub one_at : ℕ → ℕ → Word
one_at zero bit = []
one_at (suc n) zero = true ∷ replicate n false
one_at (suc n) (suc bit) = false ∷ one_at n bit

abbrev pub word_and : Word → Word → Word
word_and (a ∷ v) (b ∷ w) = (a && b) ∷ word_and v w
word_and _ _ = []

abbrev pub word_or : Word → Word → Word
word_or (a ∷ v) (b ∷ w) = (a || b) ∷ word_or v w
word_or _ _ = []

abbrev pub word_not : Word → Word
word_not [] = []
word_not (a ∷ w) = not a ∷ word_not w

unfoldable pub sigemptyset : Sigset
sigemptyset = replicate nsig_words (replicate word_bits false)

sigfillset : Sigset
sigfillset = replicate nsig_words (replicate word_bits true)

-- `set->sig[word]`, after the range check of the callers.
abbrev word_at : Sigset → ℕ → Word
word_at [] i = []
word_at (w ∷ s) zero = w
word_at (w ∷ s) (suc i) = word_at s i

abbrev pub is_signal : ℕ → Bool
is_signal sig = not (ltb sig 1 || leb nsig sig)

pub sigaddset : Sigset → ℤ → Outcome Sigset
sigaddset s (negsuc n) = err einval
sigaddset s (pos sig) =
    if is_signal sig
    then ok (
        set s ((sig - 1) / word_bits)
          (word_or (word_at s ((sig - 1) / word_bits)) (one_at word_bits ((sig - 1) % word_bits))))
    else err einval

pub sigdelset : Sigset → ℤ → Outcome Sigset
sigdelset s (negsuc n) = err einval
sigdelset s (pos sig) =
    if is_signal sig
    then ok (
        set s ((sig - 1) / word_bits) (
          word_and (word_at s ((sig - 1) / word_bits))
            (word_not (one_at word_bits ((sig - 1) % word_bits)))))
    else err einval

-- `(word & (1UL << bit)) != 0`.
abbrev pub is_nonzero : Word → Bool
is_nonzero [] = false
is_nonzero (b ∷ w) = b || is_nonzero w

pub sigismember : Sigset → ℤ → Outcome Bool
sigismember s (negsuc n) = err einval
sigismember s (pos sig) =
    if is_signal sig
    then ok (
        is_nonzero
          (word_and (word_at s ((sig - 1) / word_bits)) (one_at word_bits ((sig - 1) % word_bits))))
    else err einval

-- The loops over the words.
pub sigandset : Sigset → Sigset → Sigset
sigandset (v ∷ l) (w ∷ r) = word_and v w ∷ sigandset l r
sigandset _ _ = []

pub sigorset : Sigset → Sigset → Sigset
sigorset (v ∷ l) (w ∷ r) = word_or v w ∷ sigorset l r
sigorset _ _ = []

pub signotset : Sigset → Sigset
signotset [] = []
signotset (w ∷ s) = word_not w ∷ signotset s

-- A failed test is -1, which the `if` of the conversion takes for true.
abbrev pub add_member : Outcome Bool → ℕ → (ℕ → Bool) → ℕ → Bool
add_member (err e) sig host i = if i == sig then true else host i
add_member (ok false) sig host i = host i
add_member (ok true) sig host i = if i == sig then true else host i

-- The set after an addition; a failed one leaves it as it was.
abbrev result_of : Sigset → Outcome Sigset → Sigset
result_of s (ok s') = s'
result_of s (err e) = s

-- The loops of the conversions, over the signals below both limits: `rounds` of them from `sig` up.
-- The host's set is the set of its members.
unfoldable pub host_members : ℕ → ℕ → Sigset → (ℕ → Bool) → ℕ → Bool
host_members zero sig s host = host
host_members (suc rounds) sig s host =
    host_members rounds (sig + 1) s (add_member (sigismember s (pos sig)) sig host)

abbrev pub lower : ℕ → ℕ → ℕ
lower a b = if ltb a b then a else b

-- `limit` is the host's NSIG.
unfoldable pub sigset_to_host : ℕ → Sigset → ℕ → Bool
sigset_to_host limit s = host_members (lower nsig limit - 1) 1 s (λ i. false)

unfoldable pub own_members : ℕ → ℕ → (ℕ → Bool) → Sigset → Sigset
own_members zero sig host s = s
own_members (suc rounds) sig host s =
    own_members rounds (sig + 1) host (if host sig then result_of s (sigaddset s (pos sig)) else s)

unfoldable pub sigset_from_host : ℕ → (ℕ → Bool) → Sigset
sigset_from_host limit host = own_members (lower nsig limit - 1) 1 host sigemptyset
