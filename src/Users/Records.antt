-- ===== src/Users/Records.antt =====
-- pwd.c: the calls by number, by iteration and into the caller's buffer agree.
use ixland.Prelude.{
  ℕ, zero, suc, ◌≡◌, refl, ap, true, none, some, List, [], ◌∷◌, ◌++◌, arith, ◌==◌, ltb, Bool-cases,
  ◌⊎◌, inl, inr, ◌<◌, ◌≤◌, if◌then◌else◌, length,
}
use ixland.Prelude.Text.{Bytes, drop}
use ixland.Fd.Errno.{erange, enoent}
use ixland.Fd.Files.{Outcome, ok, err}
use ixland.Users.{
  Passwd, UsersDb, Written, default_passwd, root_passwd, default_uid, getpwuid, getpwuid_r,
  total_length, copy_passwd, copy_checked, setpwent, getpwent,
}

-- The text that begins at a place of a buffer, up to the NUL.
unfoldable text_at : Bytes → Bytes
text_at [] = []
text_at (c ∷ s) = let rest = text_at s in if c == 0 then [] else c ∷ rest

-- What a caller reads through the pointers that it was given.
abbrev read_back : Written → Passwd
read_back w = record {
  pw_name = text_at (drop w.name_at w.buffer);
  pw_passwd = text_at (drop w.passwd_at w.buffer);
  pw_uid = w.uid;
  pw_gid = w.gid;
  pw_gecos = text_at (drop w.gecos_at w.buffer);
  pw_dir = text_at (drop w.dir_at w.buffer);
  pw_shell = text_at (drop w.shell_at w.buffer);
}

-- What a call into a buffer does for a record: it fits and can be read back, or the buffer is too small.
abbrev Delivers : Passwd → ℕ → Outcome Written → Type 0
Delivers p buflen o =
    ((w : Written) × (o ≡ ok w) × (length w.buffer ≤ buflen) × (read_back w ≡ p))
    ⊎ ((o ≡ err erange) × (buflen < total_length p))

copy_default : read_back (copy_passwd default_passwd) ≡ default_passwd
unfolding text_at
copy_default = refl

copy_root : read_back (copy_passwd root_passwd) ≡ root_passwd
unfolding text_at
copy_root = refl

copy_checked-Delivers :
    (p : Passwd) (buflen : ℕ)
    → read_back (copy_passwd p) ≡ p
    → length (copy_passwd p).buffer ≡ total_length p
    → Delivers p buflen (copy_checked p buflen)
copy_checked-Delivers p buflen back fits = elim (Bool-cases (ltb buflen (total_length p))) [
  | inl e ↦ inr (rw e refl, ground arith)
  | inr e ↦ inl (copy_passwd p, rw e refl, ground arith, back)
]

-- For every number and buffer, `ixland_getpwuid_r` with all its pointers and `ixland_getpwuid` both find
-- no user, or they agree on one: what was written then fits the buffer and reads back as the user's
-- record, unless the buffer is smaller than its texts and ERANGE is the result.
getpwuid_r-getpwuid :
    (uid buflen : ℕ) (db : UsersDb)
    → ((getpwuid uid db ≡ (err enoent, db)) × (getpwuid_r uid true buflen ≡ err enoent))
      ⊎ ((p : Passwd) × ((getpwuid uid db).0 ≡ ok p)
          × Delivers p buflen (getpwuid_r uid true buflen))
unfolding getpwuid getpwuid_r
getpwuid_r-getpwuid uid buflen db = elim (Bool-cases (uid == default_uid)) [
  | inl e ↦ inr (
    default_passwd,
    rw e refl,
    rw e (copy_checked-Delivers default_passwd buflen copy_default refl),
  )
  | inr e ↦ elim (Bool-cases (uid == 0)) [
    | inl f ↦ inr (
      root_passwd,
      rw (e, f) refl,
      rw (e, f) (copy_checked-Delivers root_passwd buflen copy_root refl),
    )
    | inr f ↦ inl (rw (e, f) refl, rw (e, f) refl)
  ]
]

-- The records that repeated calls of `ixland_getpwent` give.
unfoldable iterate : ℕ → UsersDb → List Passwd
iterate zero db = []
iterate (suc n) db =
    let rest = iterate n (getpwent db).1 in elim (getpwent db).0 [ none ↦ [] | some p ↦ p ∷ rest ]

abbrev Occurs : Passwd → List Passwd → Type 0
Occurs p l = (before : List Passwd) × (behind : List Passwd) × (l ≡ before ++ p ∷ behind)

-- After `ixland_setpwent`, three or more calls of `ixland_getpwent` give, in whatever state the iteration
-- was, every record that `ixland_getpwuid` finds.
iterate-getpwuid :
    (n uid : ℕ) (db : UsersDb) (p : Passwd)
    → (getpwuid uid db).0 ≡ ok p
    → Occurs p (iterate (suc (suc (suc n))) (setpwent db))
unfolding getpwuid iterate setpwent getpwent
iterate-getpwuid n uid db p h = elim (Bool-cases (uid == default_uid)) [
  | inl e ↦
      let q : ok default_passwd ≡ ok p = rw e at h in
      let r : default_passwd ≡ p = cc in (root_passwd ∷ [], [], ap (λ x. root_passwd ∷ x ∷ []) r)
  | inr e ↦ elim (Bool-cases (uid == 0)) [
    | inl f ↦
        let q : ok root_passwd ≡ ok p = rw (e, f) at h in
        let r : root_passwd ≡ p = cc in
        ([], default_passwd ∷ [], ap (λ x. x ∷ default_passwd ∷ []) r)
    | inr f ↦ (let q : err enoent ≡ ok p = rw (e, f) at h in cc)
  ]
]
