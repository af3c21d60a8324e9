-- ===== src/Sftp/Table.antt =====
-- `PYLIBSSH2_Sftp_methods[]` and `PYLIBSSH2_Sftp_getattr` of src/sftp.c, for the methods that leave
-- the object as it is. The four others, `open_dir`, `open_file`, `close_dir` and `close_file`, are
-- in `Store`.
use pylibssh.Prelude.{ℤ, String, Option}
use pylibssh.Host.{Io}
use pylibssh.Host.Types.{Bytes, Value}
use pylibssh.Handles.{Sftp}
use pylibssh.Sftp.Paths
use pylibssh.Sftp.Attrs
use pylibssh.Sftp.Attrs.{AttrDict}

pub data Method : Type 0 where
  unlink rmdir realpath readlink : Option String → Method
  rename symlink : Option (String × String) → Method
  mkdir : Option (String × Option ℤ) → Method
  get_stat : ℤ → Option (Bytes × Option ℤ) → Method
  set_stat : Option (String × AttrDict) → Method

unfoldable pub run_sftp : Method → Sftp → Io Value
run_sftp (unlink args) self = Paths.unlink self args
run_sftp (rename args) self = Paths.rename self args
run_sftp (mkdir args) self = Paths.mkdir self args
run_sftp (rmdir args) self = Paths.rmdir self args
run_sftp (realpath args) self = Paths.realpath self args
run_sftp (readlink args) self = Paths.readlink self args
run_sftp (symlink args) self = Paths.symlink self args
run_sftp (get_stat stat_type args) self = Attrs.get_stat stat_type self args
run_sftp (set_stat args) self = Attrs.set_stat self args
