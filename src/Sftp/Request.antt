-- ===== src/Sftp/Request.antt =====
-- What `set_stat` of src/sftp.c asks the server for.
use pylibssh.Prelude.{ℕ, negsuc, to_unsigned_long, ◌≡◌, refl, Option, none, some}
use pylibssh.Host.{Env, Host, pure, set_error, ◌>>=◌, ◌>>◌}
use pylibssh.Host.Types.{
  AttrFlag, RequestAttributes, attr_uidgid, st_mode, st_uid, st_gid, st_atime, st_mtime,
}
use pylibssh.Sftp.Attrs.{
  Item, long, no_long, AttrDict, requested, set_mode, set_both, set_uid, as_long, clear_error,
  flag_of, unset,
}

-- A value as it is written: -1 for one that is no `long`.
abbrev pub written : Option Item → Option ℕ
written none = none
written (some (long n)) = some (to_unsigned_long n)
written (some (no_long e)) = some (to_unsigned_long (negsuc 0))

-- Both values, if both are there: the second.
abbrev pub second_of : Option ℕ → Option Item → Option Item → Option ℕ
second_of other (some a) (some b) = written (some b)
second_of other a b = other

-- Only the flags, the permissions and the owner are touched.
record Sets (attr : RequestAttributes) (permissions uid : Option ℕ) : Type 0 where
  pub permissions_are : attr.permissions ≡ permissions
  pub uid_is : attr.uid ≡ uid
  pub no_gid : attr.gid ≡ none
  pub no_atime : attr.atime ≡ none
  pub no_mtime : attr.mtime ≡ none

module _ (env : Env) (h : Host) where
  set_mode-Sets : (mode : Option Item) → Sets (set_mode mode unset env h).0 (written mode) none
  unfolding set_mode as_long clear_error flag_of set_error pure ◌>>=◌ ◌>>◌
  set_mode-Sets none = record {
    permissions_are = refl;
    uid_is = refl;
    no_gid = refl;
    no_atime = refl;
    no_mtime = refl;
  }
  set_mode-Sets (some (long n)) = record {
    permissions_are = refl;
    uid_is = refl;
    no_gid = refl;
    no_atime = refl;
    no_mtime = refl;
  }
  set_mode-Sets (some (no_long e)) = record {
    permissions_are = refl;
    uid_is = refl;
    no_gid = refl;
    no_atime = refl;
    no_mtime = refl;
  }

  set_both-Sets :
      (f : AttrFlag) (a b : Option Item) (attr : RequestAttributes) (permissions uid : Option ℕ)
      → Sets attr permissions uid
      → Sets (set_both f a b attr env h).0 permissions (second_of uid a b)
  unfolding set_both set_uid as_long clear_error flag_of set_error pure ◌>>=◌ ◌>>◌
  set_both-Sets f none b attr permissions uid k = k
  set_both-Sets f (some a) none attr permissions uid k = k
  set_both-Sets f (some a) (some (long n)) attr permissions uid k = record {
    permissions_are = k.permissions_are;
    uid_is = refl;
    no_gid = k.no_gid;
    no_atime = k.no_atime;
    no_mtime = k.no_mtime;
  }
  set_both-Sets f (some a) (some (no_long e)) attr permissions uid k = record {
    permissions_are = k.permissions_are;
    uid_is = refl;
    no_gid = k.no_gid;
    no_atime = k.no_atime;
    no_mtime = k.no_mtime;
  }

-- For every dictionary, what `set_stat` sends: the permissions are those of the dictionary, the
-- fields for the group and the two times are never written, and the field for the owner gets the
-- modification time if both times are given, else the group if both owner and group are given, and
-- else nothing. Each value is written as an `unsigned long`, and one that is no `long` as -1.
pub requested_fields :
    (env : Env) (d : AttrDict) (h : Host)
    → let attr = (requested d env h).0 in
      (attr.permissions ≡ written (d st_mode))
      × (attr.gid ≡ none)
      × (attr.atime ≡ none)
      × (attr.mtime ≡ none)
      × (attr.uid ≡ second_of (second_of none (d st_uid) (d st_gid)) (d st_atime) (d st_mtime))
unfolding requested ◌>>=◌
requested_fields env d h =
    let first = set_mode-Sets env h (d st_mode) in
    let owner = set_both-Sets env _ attr_uidgid (d st_uid) (d st_gid) _ _ _ first in
    let k = set_both-Sets env _ _ (d st_atime) (d st_mtime) _ _ _ owner in
    (k.permissions_are, k.no_gid, k.no_atime, k.no_mtime, k.uid_is)
