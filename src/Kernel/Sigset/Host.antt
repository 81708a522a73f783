-- ===== src/Kernel/Sigset/Host.antt =====
-- The conversions of a mask to the host's set and back.
use ixland.Prelude.{
  ℕ, zero, suc, ◌+◌, ◌-◌, ◌<◌, ◌≤◌, ◌≡◌, refl, ap, sym, ◌∙◌, ◌⊎◌, inl, inr, Bool, true, false, ◌&&◌,
  ◌||◌, [], ◌∷◌, arith, ◌==◌, ltb, leb, if◌then◌else◌, length, replicate, length-replicate,
  Bool-cases,
}
use ixland.Prelude.Int.{pos}
use ixland.Fd.Files.{ok}
use ixland.Kernel.Sigset.{
  nsig, word_bits, Word, Sigset, bit_at, sigemptyset, sigismember, add_member, host_members, lower,
  sigset_to_host, own_members, sigset_from_host,
}
use ixland.Kernel.Sigset.Members.{
  IsSigset, IsSignal, added, sigismember-bit_at, sigaddset-added, bit_at-added, length-added,
}

-- A number from `low` up, below `high`.
abbrev within : ℕ → ℕ → ℕ → Bool
within low high j = leb low j && ltb j high

host_members-within :
    (rounds sig : ℕ) (w : Word) (host : ℕ → Bool) (j : ℕ)
    → 1 ≤ sig
    → sig + rounds ≤ nsig
    → host_members rounds sig (w ∷ []) host j
      ≡ (if within sig (sig + rounds) j then bit_at w (j - 1) || host j else host j)
unfolding host_members
host_members-within zero sig w host j low high = ground arith
host_members-within (suc rounds) sig w host j low high =
    ap (λ o. host_members rounds (sig + 1) (w ∷ []) (add_member o sig host) j)
      (sigismember-bit_at w sig (low, omega arith))
    ∙ host_members-within rounds (sig + 1) w (add_member (ok (bit_at w (sig - 1))) sig host) j
        (omega arith) (omega arith)
    ∙ at (Bool-cases (j == sig)) (Bool-cases (bit_at w (sig - 1)))
  where
    at :
        ((j == sig) ≡ true) ⊎ ((j == sig) ≡ false)
        → (bit_at w (sig - 1) ≡ true) ⊎ (bit_at w (sig - 1) ≡ false)
        → (if within (sig + 1) (sig + 1 + rounds) j
            then bit_at w (j - 1) || add_member (ok (bit_at w (sig - 1))) sig host j
            else add_member (ok (bit_at w (sig - 1))) sig host j)
          ≡ (if within sig (sig + suc rounds) j then bit_at w (j - 1) || host j else host j)
    at (inl a) (inl b) =
        let here : bit_at w (j - 1) ≡ true = ap (λ i. bit_at w (i - 1)) (ground arith) ∙ b in
        rw (b, here, a) (ground arith)
    at (inl a) (inr b) =
        let here : bit_at w (j - 1) ≡ false = ap (λ i. bit_at w (i - 1)) (ground arith) ∙ b in
        rw (b, here) (ground arith)
    at (inr a) (inl b) = rw (b, a) (ground arith)
    at (inr a) (inr b) = rw b (ground arith)

own_members-within :
    (rounds sig : ℕ) (host : ℕ → Bool) (w : Word)
    → 1 ≤ sig
    → sig + rounds ≤ nsig
    → length w ≡ word_bits
    → (v : Word) × (own_members rounds sig host (w ∷ []) ≡ v ∷ [])
      × (length v ≡ word_bits)
      × ((j : ℕ)
          → IsSignal j
          → bit_at v (j - 1) ≡ (
              if within sig (sig + rounds) j then host j || bit_at w (j - 1) else bit_at w (j - 1)))
unfolding own_members
own_members-within zero sig host w low high n = (w, refl, n, λ j i. ground arith)
own_members-within (suc rounds) sig host w low high n = elim (Bool-cases (host sig)) [
  | inl set ↦
      let (v, e, m, f) =
        own_members-within rounds (sig + 1) host (added w sig) (omega arith) (omega arith)
          (length-added w sig n) in
      (
        v,
        rw (set, sigaddset-added w sig (low, omega arith)) e,
        m,
        λ j i.
            f j i ∙ at set j (bit_at-added w sig j n (low, omega arith) i) (Bool-cases (j == sig)),
      )
  | inr unset ↦
      let (v, e, m, f) = own_members-within rounds (sig + 1) host w (omega arith) (omega arith) n in
      (v, rw unset e, m, λ j i. f j i ∙ skipped unset j (Bool-cases (j == sig)))
]
  where
    at :
        host sig ≡ true
        → (j : ℕ) → bit_at (added w sig) (j - 1) ≡ (j == sig || bit_at w (j - 1))
        → ((j == sig) ≡ true) ⊎ ((j == sig) ≡ false)
        → (if within (sig + 1) (sig + 1 + rounds) j
            then host j || bit_at (added w sig) (j - 1)
            else bit_at (added w sig) (j - 1))
          ≡ (if within sig (sig + suc rounds) j
              then host j || bit_at w (j - 1)
              else bit_at w (j - 1))
    at set j b (inl a) =
        let here : host j ≡ true = ap host (ground arith) ∙ set in rw (b, here, a) (ground arith)
    at set j b (inr a) = rw (b, a) (ground arith)

    skipped :
        host sig ≡ false
        → (j : ℕ) → ((j == sig) ≡ true) ⊎ ((j == sig) ≡ false)
        → (if within (sig + 1) (sig + 1 + rounds) j
            then host j || bit_at w (j - 1)
            else bit_at w (j - 1))
          ≡ (if within sig (sig + suc rounds) j
              then host j || bit_at w (j - 1)
              else bit_at w (j - 1))
    skipped unset j (inl a) =
        let here : host j ≡ false = ap host (ground arith) ∙ unset in rw here (ground arith)
    skipped unset j (inr a) = ground arith

lower_le : (limit : ℕ) → 1 + (lower nsig limit - 1) ≤ nsig
lower_le limit = ground arith

below_lower :
    (limit j : ℕ) → IsSignal j → j < limit → within 1 (1 + (lower nsig limit - 1)) j ≡ true
below_lower limit j (a, b) c = ground arith

to_host-bit_at :
    (limit : ℕ) (w : Word) (j : ℕ)
    → IsSignal j
    → j < limit
    → sigset_to_host limit (w ∷ []) j ≡ bit_at w (j - 1)
unfolding sigset_to_host
to_host-bit_at limit w j i h =
    host_members-within (lower nsig limit - 1) 1 w (λ q. false) j (omega arith) (lower_le limit)
    ∙ rw (below_lower limit j i h) (ground arith)

bit_at_empty : (n i : ℕ) → bit_at (replicate n false) i ≡ false
bit_at_empty zero i = refl
bit_at_empty (suc n) zero = refl
bit_at_empty (suc n) (suc i) = bit_at_empty n i

-- A mask that was converted to the host's set and back agrees with the old one on every signal 1
-- to 63 that the host knows.
pub sigset_from_host-sigset_to_host :
    (s : Sigset) (limit j : ℕ)
    → IsSigset s
    → IsSignal j
    → j < limit
    → sigismember (sigset_from_host limit (sigset_to_host limit s)) (pos j) ≡ sigismember s (pos j)
unfolding sigset_from_host sigemptyset
sigset_from_host-sigset_to_host s limit j (w, e, n) i h =
    let (v, eq, m, f) =
      own_members-within (lower nsig limit - 1) 1 (sigset_to_host limit s)
        (replicate word_bits false) (omega arith) (lower_le limit)
        (length-replicate word_bits false) in
    ap (λ x. sigismember x (pos j)) eq
    ∙ sigismember-bit_at v j i
    ∙ ap ok (
        f j i
        ∙ rw (below_lower limit j i h, bit_at_empty word_bits (j - 1))
            (ap (λ x. sigset_to_host limit x j || false) e
              ∙ rw (to_host-bit_at limit w j i h) (ground arith)))
    ∙ sym (sigismember-bit_at w j i)
    ∙ ap (λ x. sigismember x (pos j)) (sym e)
