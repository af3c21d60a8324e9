-- ===== src/Stat.antt =====
-- The two functions of src/pylibssh2.c that make a dictionary of attributes: `sftp_attrs_to_statdict`
-- and `stat_to_statdict`. A time of the second is a float, kept as seconds and nanoseconds.
use pylibssh.Prelude.{[], ◌∷◌}
use pylibssh.Host.Types.{
  Attributes, FileStat, StatDict, st_size, st_uid, st_gid, st_mode, st_atime, st_mtime, st_flags,
  number, seconds,
}

unfoldable pub sftp_attrs_to_statdict : Attributes → StatDict
sftp_attrs_to_statdict attr =
    (st_size, number attr.filesize)
    ∷ (st_uid, number attr.uid)
    ∷ (st_gid, number attr.gid)
    ∷ (st_mode, number attr.permissions)
    ∷ (st_atime, number attr.atime)
    ∷ (st_mtime, number attr.mtime)
    ∷ (st_flags, number attr.flags)
    ∷ []

-- `st_atime` takes the seconds of the access time and the nanoseconds of the modification time.
unfoldable pub stat_to_statdict : FileStat → StatDict
stat_to_statdict attr =
    (st_size, number attr.size)
    ∷ (st_uid, number attr.uid)
    ∷ (st_gid, number attr.gid)
    ∷ (st_mode, number attr.mode)
    ∷ (st_atime, seconds attr.atim_sec attr.mtim_nsec)
    ∷ (st_mtime, seconds attr.mtim_sec attr.mtim_nsec)
    ∷ []
