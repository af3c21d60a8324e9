-- ===== src/Sftp/Attrs.antt =====
-- `get_stat` and `set_stat` of src/sftp.c. The dictionary that `set_stat` is given is a function from
-- its keys. The numbers of the flags come from the environment.
use Prim.Native.Nat.{bit_or}
use pylibssh.Prelude.{
  ℕ, ℤ, negsuc, to_unsigned_long, is_negative, String, [], ◌∷◌, Option, none, some,
}
use pylibssh.Host.{Io, pure, set_error, ◌>>=◌, ◌>>◌, invoke, parsed}
use pylibssh.Host.Types.{
  Bytes, alloc, socket_send, socket_timeout, sftp_protocol, RequestAttributes, AttrFlag, Exception,
  StatKey, st_mode, st_uid, st_gid, st_atime, st_mtime, attr_permissions, attr_uidgid,
  attr_acmodtime, Value, py_none, stat,
}
use pylibssh.Host.Calls.{sftp_stat, sftp_setstat}
use pylibssh.Report.{with_message, with_both, from_sftp, unless_failed, guarded}
use pylibssh.Stat.{sftp_attrs_to_statdict}
use pylibssh.Handles.{Sftp, sftp_closed_text}

-- `stat_type` is the number of `LIBSSH2_SFTP_STAT` or `LIBSSH2_SFTP_LSTAT`, the first by default.
unfoldable pub get_stat : (stat_type : ℤ) → Sftp → Option (Bytes × Option ℤ) → Io Value
get_stat stat_type self args = guarded self.sftp sftp_closed_text (
    parsed args λ a. do
      r ← invoke (sftp_stat self.sftp a.0 (elim a.1 [ none ↦ stat_type | some t ↦ t ]))
      unless_failed (is_negative r.rc) self.session r.rc
          ((alloc, with_message "An internal memory allocation call failed: %s")
            ∷ (socket_send, with_message "Unable to send data on socket: %s")
            ∷ (socket_timeout, with_message "LIBSSH2_ERROR_SOCKET_TIMEOUT: %s")
            ∷ (sftp_protocol, from_sftp self.sftp)
            ∷ [])
          (with_both "Unable to get stat %i: %s") (stat (sftp_attrs_to_statdict r.attrs)))

-- A value of the dictionary: the C `long` that `PyLong_AsLong` makes of it, or the exception that it
-- sets where the value is no integer or too large.
pub data Item : Type 0 where
  long : ℤ → Item
  no_long : Exception → Item

-- `none` where the dictionary has no such key.
abbrev pub AttrDict : Type 0
AttrDict = StatKey → Option Item

abbrev pub unset : RequestAttributes
unset = record { flags = 0; uid = none; gid = none; permissions = none; atime = none; mtime = none }

-- `PyMapping_HasKeyString` clears the exception that the failed lookup has set, and with it any other.
unfoldable pub clear_error : Io (Unit {0})
clear_error env h = (tt, record h { error = none })

-- `PyLong_AsLong`, which returns -1 where it sets an exception, stored in an `unsigned long`.
unfoldable pub as_long : Item → Io ℕ
as_long (long n) = pure (to_unsigned_long n)
as_long (no_long e) = set_error e >> pure (to_unsigned_long (negsuc 0))

unfoldable pub flag_of : AttrFlag → Io ℕ
flag_of f env h = (env.attr_flag f, h)

-- The key `st_mode`.
unfoldable pub set_mode : Option Item → RequestAttributes → Io RequestAttributes
set_mode none attr = clear_error >> pure attr
set_mode (some mode) attr = do
  flag ← flag_of attr_permissions
  permissions ← as_long mode
  pure (record attr { flags = bit_or attr.flags flag; permissions = some permissions })

-- The field `uid`, which takes the value of any of the keys `st_uid`, `st_gid`, `st_atime`, `st_mtime`.
unfoldable pub set_uid : AttrFlag → Item → RequestAttributes → Io RequestAttributes
set_uid f item attr = do
  flag ← flag_of f
  uid ← as_long item
  pure (record attr { flags = bit_or attr.flags flag; uid = some uid })

-- Two keys, where both are there. Both values go to the field `uid`.
unfoldable pub set_both :
    AttrFlag → Option Item → Option Item → RequestAttributes → Io RequestAttributes
set_both f none second attr = clear_error >> pure attr
set_both f (some item) none attr = clear_error >> pure attr
set_both f (some item) (some item') attr = set_uid f item attr >>= set_uid f item'

-- What `set_stat` writes into `attr` before it calls libssh2. An exception is left behind.
unfoldable pub requested : AttrDict → Io RequestAttributes
requested attrs = do
  with_mode ← set_mode (attrs st_mode) unset
  with_owner ← set_both attr_uidgid (attrs st_uid) (attrs st_gid) with_mode
  set_both attr_acmodtime (attrs st_atime) (attrs st_mtime) with_owner

unfoldable pub send_setstat : Sftp → String → RequestAttributes → Io Value
send_setstat self path attr = do
  r ← invoke (sftp_setstat self.sftp path attr)
  unless_failed (is_negative r.rc) self.session r.rc
      ((alloc, with_message "An internal memory allocation call failed: %s")
        ∷ (socket_send, with_message "Unable to send data on socket: %s")
        ∷ (socket_timeout, with_message "LIBSSH2_ERROR_SOCKET_TIMEOUT: %s")
        ∷ (sftp_protocol, from_sftp self.sftp)
        ∷ [])
      (with_both "Unable to set file stat %i: %s") py_none

unfoldable pub set_stat : Sftp → Option (String × AttrDict) → Io Value
set_stat self args =
    guarded self.sftp sftp_closed_text (parsed args λ a. (requested a.1 >>= send_setstat self a.0))
