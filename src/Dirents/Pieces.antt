-- ===== src/Dirents/Pieces.antt =====
-- readdir.c: which records a call writes.
use ixland.Prelude.{
  ℕ, ◌+◌, ◌-◌, ◌%◌, ◌^◌, ◌≤◌, ◌<◌, ◌≡◌, refl, true, false, Option, none, some, List, [], ◌∷◌, ◌++◌,
  ltb, length, map, if◌then◌else◌, Bool-cases, inl, inr, arith,
}
use ixland.Prelude.Int.{ℤ}
use ixland.Fd.Errno.{Errno}
use ixland.Fd.Files.{ok}
use ixland.Dirents.{Native, Dirent, aligned_len, map_dtype, dirent_of, fill}

-- The bytes that records take.
abbrev pub size : List Native → ℕ
size [] = 0
size (n ∷ ns) = aligned_len n + size ns

-- The place after the last of some entries.
abbrev pub last_place : List Native → ℤ → ℤ
last_place [] latest = latest
last_place (n ∷ ns) latest = last_place ns n.place

-- The entries whose records fit, one after the other, and those that are left.
abbrev front_of : List Native → ℕ → List Native
front_of [] room = []
front_of (n ∷ ns) room =
    if ltb room (aligned_len n) then [] else n ∷ front_of ns (room - aligned_len n)

abbrev pub rest_of : List Native → ℕ → List Native
rest_of [] room = []
rest_of (n ∷ ns) room =
    if ltb room (aligned_len n) then n ∷ ns else rest_of ns (room - aligned_len n)

front_of-rest_of : (ns : List Native) (room : ℕ) → front_of ns room ++ rest_of ns room ≡ ns
front_of-rest_of [] room = refl
front_of-rest_of (n ∷ ns) room = ground (arith, front_of-rest_of ns (room - aligned_len n))

size-front_of : (ns : List Native) (room : ℕ) → size (front_of ns room) ≤ room
size-front_of [] room = omega arith
size-front_of (n ∷ ns) room = ground (arith, size-front_of ns (room - aligned_len n))

length-rest_of : (ns : List Native) (room : ℕ) → length (rest_of ns room) ≤ length ns
length-rest_of [] room = omega arith
length-rest_of (n ∷ ns) room = ground (arith, length-rest_of ns (room - aligned_len n))

fill-later :
    (error : Option Errno) (ns : List Native) (room : ℕ) (latest : ℤ)
    → fill error ns room false latest
      ≡ ok (map dirent_of (front_of ns room), last_place (front_of ns room) latest)
unfolding fill
fill-later none [] room latest = refl
fill-later (some e) [] room latest = refl
fill-later error (n ∷ ns) room latest = elim (Bool-cases (ltb room (aligned_len n))) [
  | inl e ↦ rw e refl
  | inr e ↦ rw (e, fill-later error ns (room - aligned_len n) n.place) refl
]

-- With room for the first entry, the loop writes the records of the entries that fit, in the order of the
-- stream; they take no more than the room, the offset is the place after the last of them, and the entries
-- of the stream are these and then the rest.
fill-front :
    (error : Option Errno) (n : Native) (ns : List Native) (room : ℕ) (latest : ℤ)
    → aligned_len n ≤ room
    → (fill error (n ∷ ns) room true latest
        ≡ ok (map dirent_of (front_of (n ∷ ns) room), last_place (front_of (n ∷ ns) room) latest))
      × (size (front_of (n ∷ ns) room) ≤ room)
      × (front_of (n ∷ ns) room ++ rest_of (n ∷ ns) room ≡ n ∷ ns)
unfolding fill
fill-front error n ns room latest h =
    let low : ltb room (aligned_len n) ≡ false = ground arith in
    (
      rw (low, fill-later error ns (room - aligned_len n) n.place) refl,
      size-front_of (n ∷ ns) room,
      front_of-rest_of (n ∷ ns) room,
    )

-- The record of an entry, for its bytes `len` in the buffer.
abbrev IsRecord : Native → Dirent → Type 0
IsRecord n d =
    (d.ino ≡ n.ino)
    × (d.off ≡ n.place)
    × (d.name ≡ n.name)
    × (d.kind ≡ map_dtype n.kind)
    × (d.padding < 8)
    × (20 + length n.name + d.padding ≡ aligned_len n)
    × (aligned_len n % 8 ≡ 0)
    × (d.reclen ≡ aligned_len n % 2 ^ 16)

abbrev pub AreRecords : List Native → List Dirent → Type 0
AreRecords [] [] = Unit
AreRecords [] (d ∷ ds) = ⊥
AreRecords (n ∷ ns) [] = ⊥
AreRecords (n ∷ ns) (d ∷ ds) = IsRecord n d × AreRecords ns ds

-- The next entry does not fit what is left.
abbrev pub IsLeftOut : List Native → ℕ → Type 0
IsLeftOut [] room = Unit
IsLeftOut (n ∷ ns) room = room < aligned_len n
