-- ===== src/Wasi/Environment.antt =====
-- ixland_wamr.c: the sizes that a program is told and the bytes that it gets.
use ixland.Prelude.{
  ℕ, zero, suc, ◌+◌, ◌-◌, ◌%◌, ◌^◌, ◌≤◌, ◌<◌, ◌≡◌, ◌≢◌, refl, ap, ◌∙◌, true, Option, none, some,
  List, [], ◌∷◌, ◌++◌, length, length-append, length-replicate, replicate, get_elem?, arith,
}
use ixland.Prelude.Text.{Bytes, take, drop}
use ixland.Wasi.{done}
use ixland.Wasi.Opening.{c_string}
use ixland.Wasi.{strncpy}
use ixland.Wasi.Strings.{
  Context, args_get, args_sizes_get, addresses, strings, environ_get, add_sizes, environ_sizes_get,
}

-- A string without a NUL byte.
abbrev HasNoNul : Bytes → Type 0
HasNoNul [] = Unit
HasNoNul (b ∷ s) = (b ≢ 0) × HasNoNul s

-- The variables are all there and have no NUL bytes.
abbrev AreStrings : List (Option Bytes) → Type 0
AreStrings [] = Unit
AreStrings (none ∷ env) = ⊥
AreStrings (some s ∷ env) = HasNoNul s × AreStrings env

c_string-append : (s rest : Bytes) → HasNoNul s → c_string (s ++ (0 ∷ rest)) ≡ s
unfolding c_string
c_string-append [] rest h = refl
c_string-append (b ∷ s) rest h = ground (arith, c_string-append s rest h.1)

drop-append : (s rest : Bytes) (k : ℕ) → drop (length s + k) (s ++ rest) ≡ drop k rest
drop-append [] rest k = ap (λ (n : ℕ). drop n rest) (omega arith)
drop-append (b ∷ s) rest k =
    let e : suc (length s) + k ≡ suc (length s + k) = omega arith in rw e (drop-append s rest k)

length-addresses :
    (base offset : ℕ) (env : List (Option Bytes))
    → AreStrings env
    → length (addresses base offset env) ≡ length env
unfolding addresses
length-addresses base offset [] h = refl
length-addresses base offset (none ∷ env) h = absurd h
length-addresses base offset (some s ∷ env) h =
    ap suc (length-addresses base (offset + length s + 1) env h.1)

add_sizes_lem :
    (env : List (Option Bytes)) (total : ℕ)
    → total < 2 ^ 32
    → add_sizes env total ≡ (total + length (strings env)) % 2 ^ 32
unfolding add_sizes strings
add_sizes_lem [] total h = omega arith
add_sizes_lem (none ∷ env) total h = omega arith
add_sizes_lem (some s ∷ env) total h = omega (
  arith,
  add_sizes_lem env ((total + length s + 1) % 2 ^ 32) (omega arith),
  length-append s (0 ∷ strings env),
)

-- The address of a variable, less that of the buffer, is the place of its bytes.
address-string :
    (base offset : ℕ) (env : List (Option Bytes)) (j : ℕ) (s : Bytes)
    → AreStrings env
    → base + offset + length (strings env) < 2 ^ 32
    → get_elem? env j ≡ some (some s)
    → (k : ℕ) × (get_elem? (addresses base offset env) j ≡ some (base + offset + k))
      × (k < length (strings env))
      × (c_string (drop k (strings env)) ≡ s)
unfolding addresses strings
address-string base offset [] j s h fits e = absurd (cc e)
address-string base offset (none ∷ env) j s h fits e = absurd h
address-string base offset (some r ∷ env) zero s h fits e =
    let same : r ≡ s = cc e in
    let l = length-append r (0 ∷ strings env) in
    (
      0,
      ap (λ (n : ℕ). some n) (omega arith),
      omega arith,
      c_string-append r (strings env) h.0 ∙ same,
    )
address-string base offset (some r ∷ env) (suc j) s h fits e =
    let l = length-append r (0 ∷ strings env) in
    let (k, at, inside, string) =
      address-string base (offset + length r + 1) env j s h.1 (omega arith) e in
    (
      length r + suc k,
      at ∙ ap (λ (n : ℕ). some n) (omega arith),
      omega arith,
      rw (drop-append r (0 ∷ strings env) (suc k)) string,
    )

-- For a context whose variables are strings that fit below 2^32 from the buffer on, environ_sizes_get tells
-- the number of the variables and the size of their bytes, environ_get stores that many addresses and bytes,
-- and each address points to the bytes of its variable.
pub environ_get-environ_sizes_get :
    (base : ℕ) (c : Context) (j : ℕ) (s : Bytes)
    → AreStrings c.env
    → base + length (strings c.env) < 2 ^ 32
    → get_elem? c.env j ≡ some (some s)
    → (at : List ℕ) × (bytes : Bytes) × (k : ℕ) × (environ_get true true base (some c)
        ≡ done (at, bytes))
      × (environ_sizes_get true true (some c) ≡ done (length at, length bytes))
      × (get_elem? at j ≡ some (base + k))
      × (k < length bytes)
      × (c_string (drop k bytes) ≡ s)
unfolding environ_get environ_sizes_get
environ_get-environ_sizes_get base c j s h fits e =
    let (k, at, inside, string) = address-string base 0 c.env j s h (omega arith) e in
    (
      addresses base 0 c.env,
      strings c.env,
      k,
      refl,
      rw (length-addresses base 0 c.env h) (
          ap (λ (n : ℕ). done (length c.env, n))
            (omega (arith, add_sizes_lem c.env 0 (omega arith)))),
      at ∙ ap (λ (n : ℕ). some n) (omega arith),
      inside,
      string,
    )

length-take : (n : ℕ) (s : Bytes) → length s ≤ n → length (take n s) ≡ length s
length-take zero [] h = refl
length-take zero (b ∷ s) h = absurd (omega arith)
length-take (suc n) [] h = refl
length-take (suc n) (b ∷ s) h = ap suc (length-take n s (omega arith))

-- For a name of fewer than 1022 bytes args_get stores 1023 bytes, which is more than the size that
-- args_sizes_get tells: strncpy fills up with zeros.
args_get-overflows :
    (base : ℕ) (c : Context)
    → length c.name < 1022
    → (bytes : Bytes) × (size : ℕ) × (args_get true true base (some c) ≡ done (base, bytes))
      × (args_sizes_get true true (some c) ≡ done (1, size))
      × (length bytes ≡ 1023)
      × (size < length bytes)
unfolding args_get args_sizes_get
args_get-overflows base c h =
    let n = length-take 1023 c.name (omega arith) in
    let l = length-append (take 1023 c.name) (replicate (1023 - length c.name) 0) in
    let z = length-replicate (1023 - length c.name) (let x : ℕ = 0 in x) in
    (strncpy 1023 c.name, (length c.name + 1) % 2 ^ 32, refl, refl, omega arith, omega arith)
