-- ===== src/Users.antt =====
-- IXLandLibC/src/usersdb/pwd.c, grp.c and internal_provider.h: the two users and the one group that the
-- library knows. The results point into a static record, which is part of the state here; a result in
-- the caller's buffer is what was written there and where each text begins.
pub mod Records
use ixland.Prelude.{
  ℕ, zero, suc, ◌+◌, ◌-◌, Bool, true, false, Option, none, some, List, [], ◌∷◌, ◌++◌, ◌==◌, ltb,
  if◌then◌else◌, length,
}
use ixland.Prelude.Text.{Bytes, codes, same_bytes, drop}
use ixland.Prelude.Int.{ℤ, pos, negsuc}
use ixland.Fd.Errno.{Errno, einval, enoent, erange, enosys}
use ixland.Fd.Files.{Outcome, ok, err}

pub record Passwd : Type 0 where
  pub pw_name : Bytes
  pub pw_passwd : Bytes
  pub pw_uid : ℕ
  pub pw_gid : ℕ
  pub pw_gecos : Bytes
  pub pw_dir : Bytes
  pub pw_shell : Bytes

pub record Group : Type 0 where
  pub gr_name : Bytes
  pub gr_passwd : Bytes
  pub gr_gid : ℕ
  pub gr_mem : List Bytes

-- The static records and the two iterators.
pub record UsersDb : Type 0 where
  pub static_passwd : Passwd
  pub pwent_index : ℕ
  pub static_group : Group
  pub grent_valid : Bool

abbrev pub default_uid : ℕ
default_uid = 501

abbrev default_name : Bytes
default_name = codes "mobile"

abbrev pub default_passwd : Passwd
default_passwd = record {
  pw_name = default_name;
  pw_passwd = codes "*";
  pw_uid = default_uid;
  pw_gid = 501;
  pw_gecos = codes "Mobile User";
  pw_dir = codes "/var/mobile";
  pw_shell = codes "/bin/sh";
}

abbrev pub root_passwd : Passwd
root_passwd = record {
  pw_name = codes "root";
  pw_passwd = codes "*";
  pw_uid = 0;
  pw_gid = 0;
  pw_gecos = codes "System Administrator";
  pw_dir = codes "/var/root";
  pw_shell = codes "/bin/sh";
}

abbrev give_passwd : Passwd → UsersDb → Outcome Passwd × UsersDb
give_passwd p db = (ok p, record db { static_passwd = p })

unfoldable getpwnam : Option Bytes → UsersDb → Outcome Passwd × UsersDb
getpwnam none db = (err einval, db)
getpwnam (some name) db =
    if same_bytes name default_name then give_passwd default_passwd db else (err enoent, db)

unfoldable getpwuid : ℕ → UsersDb → Outcome Passwd × UsersDb
getpwuid uid db =
    if uid == default_uid
    then give_passwd default_passwd db
    else if uid == 0
    then give_passwd root_passwd db
    else (err enoent, db)

-- The bytes written to a buffer, and where the texts begin in it.
pub record Written : Type 0 where
  pub buffer : Bytes
  pub name_at : ℕ
  pub passwd_at : ℕ
  pub uid : ℕ
  pub gid : ℕ
  pub gecos_at : ℕ
  pub dir_at : ℕ
  pub shell_at : ℕ

-- A text and its NUL.
abbrev pub c_string : Bytes → Bytes
c_string s = s ++ 0 ∷ []

abbrev pub total_length : Passwd → ℕ
total_length p =
    length (c_string p.pw_name)
    + length (c_string p.pw_passwd)
    + length (c_string p.pw_gecos)
    + length (c_string p.pw_dir)
    + length (c_string p.pw_shell)

abbrev pub copy_passwd : Passwd → Written
copy_passwd p =
    let passwd_at = length (c_string p.pw_name) in
    let gecos_at = passwd_at + length (c_string p.pw_passwd) in
    let dir_at = gecos_at + length (c_string p.pw_gecos) in
    record {
      buffer =
          c_string p.pw_name
          ++ c_string p.pw_passwd
          ++ c_string p.pw_gecos
          ++ c_string p.pw_dir
          ++ c_string p.pw_shell;
      name_at = 0;
      passwd_at = passwd_at;
      uid = p.pw_uid;
      gid = p.pw_gid;
      gecos_at = gecos_at;
      dir_at = dir_at;
      shell_at = dir_at + length (c_string p.pw_dir);
    }

-- `places` says whether the pointers of the caller are all there.
unfoldable getpwnam_r : Option Bytes → Bool → ℕ → Outcome Written
getpwnam_r none places buflen = err einval
getpwnam_r (some name) places buflen =
    if places
    then (if ltb buflen (total_length default_passwd)
        then err erange
        else if same_bytes name default_name
        then ok (copy_passwd default_passwd)
        else err enoent)
    else err einval

abbrev pub copy_checked : Passwd → ℕ → Outcome Written
copy_checked p buflen = if ltb buflen (total_length p) then err erange else ok (copy_passwd p)

unfoldable getpwuid_r : ℕ → Bool → ℕ → Outcome Written
getpwuid_r uid places buflen =
    if places
    then (if uid == default_uid
        then copy_checked default_passwd buflen
        else if uid == 0
        then copy_checked root_passwd buflen
        else err enoent)
    else err einval

unfoldable setpwent : UsersDb → UsersDb
setpwent db = record db { pwent_index = 0 }

abbrev next_passwd : ℕ → UsersDb → Option Passwd × UsersDb
next_passwd zero db = (some root_passwd, record db { static_passwd = root_passwd; pwent_index = 1 })
next_passwd (suc zero) db =
    (some default_passwd, record db { static_passwd = default_passwd; pwent_index = 2 })
next_passwd (suc (suc n)) db = (none, db)

unfoldable getpwent : UsersDb → Option Passwd × UsersDb
getpwent db = next_passwd db.pwent_index db

unfoldable endpwent : UsersDb → UsersDb
endpwent db = record db { pwent_index = 0 }

abbrev default_group : Group
default_group = record {
  gr_name = codes "mobile";
  gr_passwd = codes "*";
  gr_gid = 501;
  gr_mem = [];
}

abbrev give_group : UsersDb → Outcome Group × UsersDb
give_group db = (ok default_group, record db { static_group = default_group })

unfoldable getgrnam : Option Bytes → UsersDb → Outcome Group × UsersDb
getgrnam none db = (err einval, db)
getgrnam (some name) db =
    if same_bytes name default_group.gr_name then give_group db else (err enoent, db)

unfoldable getgrgid : ℕ → UsersDb → Outcome Group × UsersDb
getgrgid gid db = if gid == default_group.gr_gid then give_group db else (err enoent, db)

-- The bytes written for a group, where its texts begin, and the place of its list, which is a NULL.
pub record WrittenGroup : Type 0 where
  pub group_buffer : Bytes
  pub gr_name_at : ℕ
  pub gr_passwd_at : ℕ
  pub written_gid : ℕ
  pub gr_mem_at : ℕ

abbrev copy_group : WrittenGroup
copy_group = record {
  group_buffer = c_string default_group.gr_name ++ c_string default_group.gr_passwd;
  gr_name_at = 0;
  gr_passwd_at = length (c_string default_group.gr_name);
  written_gid = default_group.gr_gid;
  gr_mem_at = length (c_string default_group.gr_name) + length (c_string default_group.gr_passwd);
}

-- `pointer` is sizeof(char *).
abbrev group_length : ℕ → ℕ
group_length pointer =
    length (c_string default_group.gr_name) + length (c_string default_group.gr_passwd) + pointer

unfoldable getgrnam_r : ℕ → Option Bytes → Bool → ℕ → Outcome WrittenGroup
getgrnam_r pointer none places buflen = err einval
getgrnam_r pointer (some name) places buflen =
    if places
    then (if ltb buflen (group_length pointer)
        then err erange
        else if same_bytes name default_group.gr_name
        then ok copy_group
        else err enoent)
    else err einval

unfoldable getgrgid_r : ℕ → ℕ → Bool → ℕ → Outcome WrittenGroup
getgrgid_r pointer gid places buflen =
    if places
    then (if ltb buflen (group_length pointer)
        then err erange
        else if gid == default_group.gr_gid
        then ok copy_group
        else err enoent)
    else err einval

unfoldable setgrent : UsersDb → UsersDb
setgrent db = record db { grent_valid = true }

unfoldable getgrent : UsersDb → Option Group × UsersDb
getgrent db =
    if db.grent_valid
    then (some default_group, record db { grent_valid = false; static_group = default_group })
    else (none, db)

unfoldable endgrent : UsersDb → UsersDb
endgrent db = record db { grent_valid = false }

-- The number of groups, and what is written to the list, if there is one.
unfoldable getgroups : ℤ → Bool → Outcome ℕ × Option ℕ
getgroups (negsuc n) there = (err einval, none)
getgroups (pos size) there =
    if size == 0 then (ok 1, none) else (ok 1, if there then some 501 else none)

unfoldable setgroups : ℕ → List ℕ → Outcome ℕ
setgroups size groups = err enosys

unfoldable initgroups : Option Bytes → ℕ → Outcome ℕ
initgroups user group = err enosys
