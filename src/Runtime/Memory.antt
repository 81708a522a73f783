-- ===== src/Runtime/Memory.antt =====
-- ixland_wamr_simple.c: access to the memory of the program, and the test of the magic number.
use ixland.Prelude.{
  ℕ, zero, suc, ◌+◌, ◌≤◌, ◌<◌, ◌≡◌, refl, sym, ap, ◌∙◌, true, false, none, some, [], ◌∷◌, ◌++◌, ltb,
  leb, length, length-append, append_assoc, arith,
}
use ixland.Prelude.Text.{Bytes, take, drop, starts_with}
use ixland.Runtime.{State, Status, memory_read, memory_write, validate_wasm}

length-take : (n : ℕ) (s : Bytes) → n ≤ length s → length (take n s) ≡ n
length-take zero s h = refl
length-take (suc n) [] h = absurd (omega arith)
length-take (suc n) (b ∷ s) h = ap suc (length-take n s (omega arith))

length-drop : (n : ℕ) (s : Bytes) → n ≤ length s → length (drop n s) + n ≡ length s
length-drop zero s h = omega arith
length-drop (suc n) [] h = absurd (omega arith)
length-drop (suc n) (b ∷ s) h = omega (arith, length-drop n s (omega arith))

drop-append : (s rest : Bytes) → drop (length s) (s ++ rest) ≡ rest
drop-append [] rest = refl
drop-append (b ∷ s) rest = drop-append s rest

take-append : (s rest : Bytes) → take (length s) (s ++ rest) ≡ s
take-append [] rest = refl
take-append (b ∷ s) rest = ap (◌∷◌ b) (take-append s rest)

-- A program that can be called: initialised, with an instance.
abbrev IsReady : State → Type 0
IsReady s = (s.initialized ≡ true) × (s.has_instance ≡ true)

-- Bytes that are written inside the memory, at an offset in it, are read back from there; the size of the
-- memory stays, and the bytes before and behind them too.
pub memory_read-memory_write :
    (s : State) (memory buf : Bytes) (offset : ℕ)
    → IsReady s
    → offset < length memory
    → offset + length buf ≤ length memory
    → (after : Bytes) × (memory_write (some buf) memory offset s ≡ some (Status.success, after))
      × (length after ≡ length memory)
      × (take offset after ≡ take offset memory)
      × (drop (offset + length buf) after ≡ drop (offset + length buf) memory)
      × (memory_read true after offset (length buf) s ≡ some (Status.success, buf))
unfolding memory_write memory_read
memory_read-memory_write s memory buf offset (up, there) low fits =
    let front = take offset memory in
    let back = drop (offset + length buf) memory in
    let after = front ++ (buf ++ back) in
    let lf : length front ≡ offset = length-take offset memory (omega arith) in
    let lb = length-drop (offset + length buf) memory fits in
    let l : length after ≡ length memory =
      omega (arith, length-append front (buf ++ back), length-append buf back) in
    let inside : ltb offset (length memory) ≡ true = ground arith in
    let whole : leb (offset + length buf) (length memory) ≡ true = ground arith in
    let at : drop offset after ≡ buf ++ back =
      sym (ap (λ (n : ℕ). drop n after) lf) ∙ drop-append front (buf ++ back) in
    let lw : length (front ++ buf) ≡ offset + length buf = omega (arith, length-append front buf) in
    (
      after,
      rw (up, there, inside, whole) refl,
      l,
      sym (ap (λ (n : ℕ). take n after) lf) ∙ take-append front (buf ++ back),
      sym (ap (λ (n : ℕ). drop n after) lw)
          ∙ ap (drop (length (front ++ buf))) (sym (append_assoc front buf back))
          ∙ drop-append (front ++ buf) back,
      rw (up, there, l, inside, whole, at, take-append buf back) refl,
    )

-- A read that starts in the memory and ends behind it is made: it reads bytes behind the memory.
memory_read-escapes :
    (s : State) (memory : Bytes) (offset len : ℕ)
    → IsReady s
    → offset < length memory
    → length memory < offset + len
    → memory_read true memory offset len s ≡ none
unfolding memory_read
memory_read-escapes s memory offset len (up, there) low out =
    let inside : ltb offset (length memory) ≡ true = ground arith in
    let past : leb (offset + len) (length memory) ≡ false = ground arith in
    rw (up, there, inside, past) refl

-- The test accepts exactly the bytes that begin with the magic number.
validate_wasm-starts_with :
    (bytes : Bytes)
    → validate_wasm (some bytes) ≡ starts_with (0x00 ∷ 0x61 ∷ 0x73 ∷ 0x6d ∷ []) bytes
unfolding validate_wasm
validate_wasm-starts_with [] = refl
validate_wasm-starts_with (a ∷ []) = ground arith
validate_wasm-starts_with (a ∷ b ∷ []) = ground arith
validate_wasm-starts_with (a ∷ b ∷ c ∷ []) = ground arith
validate_wasm-starts_with (a ∷ b ∷ c ∷ d ∷ rest) = ground arith
