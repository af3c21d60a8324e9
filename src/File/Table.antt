-- ===== src/File/Table.antt =====
-- `PYLIBSSH2_Sftpfile_methods[]` and `PYLIBSSH2_Sftpfile_getattr` of src/sftpfile.c.
use pylibssh.Prelude.{ℕ, ℤ, Option}
use pylibssh.Host.{Io}
use pylibssh.Host.Types.{Bytes, Value}
use pylibssh.Handles.{Handle}
use pylibssh.File

pub data Method : Type 0 where
  read : Option (Option ℤ) → Method
  write : Option Bytes → Method
  tell : Method
  seek : Option ℕ → Method

unfoldable pub run_file : Method → Handle → Io Value
run_file (read args) self = File.read self args
run_file (write args) self = File.write self args
run_file tell self = File.tell self
run_file (seek args) self = File.seek self args
