-- ===== src/Host/Types.antt =====
-- The values that cross the borders of the extension: pointers and error codes of libssh2, and the
-- objects and exceptions that a method hands to Python. libssh2 and CPython are not in src/, so a
-- pointer is opaque and the error codes are names, whose numbers are a parameter.
use pylibssh.Prelude.{ℕ, ℤ, Bool, true, false, String, List, Option, ◌==◌}

-- An address; `NULL` is 0.
abbrev pub Ptr : Type 0
Ptr = ℕ

abbrev pub null_ptr : Ptr
null_ptr = 0

abbrev pub is_null_ptr : Ptr → Bool
is_null_ptr p = p == null_ptr

-- The bytes of a buffer.
abbrev pub Bytes : Type 0
Bytes = List ℕ

-- The number of a Python object in the model's store.
abbrev pub ObjId : Type 0
ObjId = ℕ

-- The `LIBSSH2_ERROR_*` names that the source compares return codes with.
pub data Code : Type 0 where
  alloc eagain file inval proto : Code
  socket_none socket_send socket_timeout socket_disconnect : Code
  banner_send kex_failure method_not_supported password_expired authentication_failed : Code
  publickey_unverified request_denied : Code
  channel_failure channel_request_denied channel_closed channel_eof_sent : Code
  scp_protocol sftp_protocol buffer_too_small : Code

-- `LIBSSH2_SFTP_ATTRIBUTES`
pub record Attributes : Type 0 where
  pub flags : ℕ
  pub filesize : ℕ
  pub uid : ℕ
  pub gid : ℕ
  pub permissions : ℕ
  pub atime : ℕ
  pub mtime : ℕ

-- The fields of `LIBSSH2_SFTP_ATTRIBUTES` that a caller fills in; `none` is a field that nobody has
-- written.
pub record RequestAttributes : Type 0 where
  pub flags : ℕ
  pub uid : Option ℕ
  pub gid : Option ℕ
  pub permissions : Option ℕ
  pub atime : Option ℕ
  pub mtime : Option ℕ

-- `struct stat`; the two times have seconds and nanoseconds.
pub record FileStat : Type 0 where
  pub size : ℕ
  pub uid : ℕ
  pub gid : ℕ
  pub mode : ℕ
  pub atim_sec : ℕ
  pub atim_nsec : ℕ
  pub mtim_sec : ℕ
  pub mtim_nsec : ℕ

-- The `LIBSSH2_METHOD_*` names.
pub data Algorithm : Type 0 where
  kex hostkey crypt_cs crypt_sc mac_cs mac_sc comp_cs comp_sc lang_cs lang_sc : Algorithm

-- The `LIBSSH2_FXF_*` names, the flags of an open file.
pub data OpenFlag : Type 0 where
  fxf_read fxf_write fxf_append fxf_creat fxf_trunc fxf_excl : OpenFlag

-- The `LIBSSH2_SFTP_ATTR_*` names that the source uses.
pub data AttrFlag : Type 0 where
  attr_uidgid attr_permissions attr_acmodtime : AttrFlag

-- A value of a stat dictionary: a number, or a float made of seconds and nanoseconds.
pub data StatValue : Type 0 where
  number : ℕ → StatValue
  seconds : ℕ → ℕ → StatValue

-- The keys of a stat dictionary.
pub data StatKey : Type 0 where
  st_size st_uid st_gid st_mode st_atime st_mtime st_flags : StatKey

-- What is read of a dictionary of attributes: its entries, in the order of insertion.
abbrev pub StatDict : Type 0
StatDict = List (StatKey × StatValue)

-- The C library's error numbers that the source names.
pub data Errno : Type 0 where
  enoent eperm eio ebadmsg econnaborted eexist eacces enodev enomem edquot edeadlock : Errno
  enotempty enotdir einval eloop : Errno

-- An argument of `PyErr_Format`.
pub data FormatArg : Type 0 where
  arg_int : ℤ → FormatArg
  arg_str : String → FormatArg

-- The exception that a method leaves in the interpreter: the module's own `Error` with a format and
-- its arguments, an `IOError` with a number and a name, a `TypeError`, or one that the interpreter
-- set itself (a failed `PyArg_ParseTuple`, a failed allocation of a string).
pub data Exception : Type 0 where
  ssh_error : String → List FormatArg → Exception
  io_error : Errno → String → Exception
  type_error : String → Exception
  interpreter_error : Exception

-- What a method returns. `null` is the C `NULL`, which tells the interpreter that an exception is
-- set; `py_none` is `Py_None`. `raw_pointer` is a pointer of libssh2 that was cast to an object.
pub data Value : Type 0 where
  null : Value
  py_none : Value
  int : ℤ → Value
  ints : List ℤ → Value
  str : String → Value
  bytes : Bytes → Value
  sized_bytes : ℤ → Bytes → Value
  code_and_text : ℤ → String → Value
  stat : StatDict → Value
  entry : Bytes → StatDict → Value
  listing : List (Bytes × StatDict) → Value
  methods : List (Algorithm × String) → Value
  object : ObjId → Value
  object_and_stat : Value → StatDict → Value
  raw_pointer : Ptr → Value

abbrev pub is_null : Value → Bool
is_null null = true
is_null v = false
