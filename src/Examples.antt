-- ===== src/Examples.antt =====
-- The theorems at concrete inputs, in an environment that answers every call with success.
mod Methods
mod Tables
mod Objects
mod Sessions
mod Bounds
mod Callbacks
mod Interleavings
mod Programs
mod Files
mod Clients
use pylibssh.Prelude.{
  ℕ, ℤ, pos, negsuc, ◌≡◌, refl, true, false, is_some, if◌then◌else◌, ◌==◌, ◌||◌, ◌+◌, ◌*◌, Option,
  none, some, List, [], ◌∷◌, length, arith,
}
use pylibssh.Host.{Env, Host}
use pylibssh.Host.Types.{
  Ptr, Bytes, Attributes, FileStat, OpenFlag, StatKey, StatDict, is_null, null, ssh_error, listing,
  fxf_read, fxf_write, fxf_append, fxf_creat, fxf_trunc, fxf_excl, st_uid, st_gid, st_atime,
  st_mtime,
}
use pylibssh.Host.Calls.{Call, Reply, Event, malloc, sftp_readdir, py_string_new}
use pylibssh.Report.Uses.{Uses}
use pylibssh.Handles.{
  Channel, Sftp, Handle, channel_closed_text, sftp_closed_text, file_closed_text,
}

abbrev pub no_stat : FileStat
no_stat = record {
  size = 0;
  uid = 0;
  gid = 0;
  mode = 0;
  atim_sec = 0;
  atim_nsec = 0;
  mtim_sec = 0;
  mtim_nsec = 0;
}

abbrev pub no_attrs : Attributes
no_attrs = record {
  flags = 0;
  filesize = 0;
  uid = 0;
  gid = 0;
  permissions = 0;
  atime = 0;
  mtime = 0;
}

abbrev pub answer : ℤ → Ptr → Reply
answer rc ptr = record {
  rc = rc;
  ptr = ptr;
  text = "";
  buffer = b'a' ∷ [];
  attrs = no_attrs;
  file_stat = no_stat;
  out_first = pos 0;
  out_second = pos 0;
}

abbrev pub name_length : List Event → ℤ
name_length (e ∷ []) = pos 1
name_length log = pos 0

-- Every call succeeds; the first call of `readdir` gives one name of one byte, a later one none.
abbrev pub answers : List Event → Call → Reply
answers log (sftp_readdir p n) = answer (name_length log) 1
answers log c = answer (pos 0) 1

-- The same, but no memory is given.
abbrev pub no_memory : List Event → Call → Reply
no_memory log (malloc n) = answer (pos 0) 0
no_memory log c = answer (pos 0) 1

abbrev pub protocol_flag : OpenFlag → ℕ
protocol_flag fxf_read = 1
protocol_flag fxf_write = 2
protocol_flag fxf_append = 4
protocol_flag fxf_creat = 8
protocol_flag fxf_trunc = 16
protocol_flag fxf_excl = 32

abbrev pub env_with : (List Event → Call → Reply) → Env
env_with reply = record {
  reply = reply;
  code = λ c. negsuc 0;
  open_flag = protocol_flag;
  attr_flag = λ f. 1;
  pick = λ xs. 0;
}

abbrev pub env : Env
env = env_with answers

abbrev pub start : Host
start = record { log = []; error = none }

abbrev pub a_channel : Channel
a_channel = record { session = 7; channel = 8 }

abbrev pub closed_channel : Channel
closed_channel = record { session = 7; channel = 0 }

abbrev pub a_sftp : Sftp
a_sftp = record { session = 7; sftp = 9; directories = []; files = [] }

abbrev pub closed_sftp : Sftp
closed_sftp = record { session = 7; sftp = 0; directories = []; files = [] }

abbrev pub a_file : Handle
a_file = record { session = 7; sftp = 9; handle = 10 }

abbrev pub closed_file : Handle
closed_file = record { session = 7; sftp = 9; handle = 0 }
