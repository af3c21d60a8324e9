-- ===== src/Init.antt =====
-- `init_libssh2` of src/pylibssh2.c, and the functions `init_libssh2_Session`, `init_libssh2_Channel`,
-- `init_libssh2_Sftp`, `init_libssh2_Sftpfile`, `init_libssh2_Sftpdir` and `init_libssh2_Listener`
-- that put the types into the module. src/pylibssh2.h numbers the places of the C API.
pub mod Registered
use pylibssh.Prelude.{
  ℕ, ◌==◌, String, Bool, true, false, List, [], ◌∷◌, ◌++◌, map, Option, none, some, if◌then◌else◌,
}

-- The types of the extension, in the order of their places in the C API.
pub data TypeName : Type 0 where
  session channel sftp sftpfile sftpdir listener : TypeName

-- `PYLIBSSH2_Session_New_NUM` and the others of src/pylibssh2.h.
unfoldable pub new_num : TypeName → ℕ
new_num session = 0
new_num channel = 1
new_num sftp = 2
new_num sftpfile = 3
new_num sftpdir = 4
new_num listener = 5

-- `PYLIBSSH2_API_pointers`
abbrev pub api_pointers : ℕ
api_pointers = 6

-- The array `PYLIBSSH2_API`: which function `_New` stands at a place; `none` is a `NULL` pointer.
abbrev pub Api : Type 0
Api = ℕ → Option TypeName

abbrev pub put : TypeName → Api → Api
put t api place = if place == new_num t then some t else api place

unfoldable pub fill_api : Api
unfolding new_num
fill_api = put sftpdir (put sftpfile (put sftp (put channel (put session (λ place. none)))))

-- The name of a type in the module's dictionary.
unfoldable pub type_name : TypeName → String
type_name session = "SessionType"
type_name channel = "ChannelType"
type_name sftp = "SFTPType"
type_name sftpfile = "SftpfileType"
type_name sftpdir = "SftpdirType"
type_name listener = "ListenerType"

-- The module: its names, newest first, and the C API, if it was added.
pub record Module : Type 0 where
  pub names : List String
  pub api : Option Api

-- One of the six functions `init_libssh2_…`, which always return 1.
unfoldable pub init_type : TypeName → Module → Module × Bool
unfolding type_name
init_type t m = (record m { names = type_name t ∷ m.names }, true)

-- The chain of `if (!init_libssh2_…(dict)) goto error;`.
unfoldable pub init_types : List TypeName → Module → Module
unfolding init_type
init_types [] m = m
init_types (t ∷ ts) m =
    let (m', done) = init_type t m in let rest = init_types ts m' in if done then rest else m'

-- The constants of the module, in their order.
abbrev pub constants : List String
constants =
    "FINGERPRINT_MD5" ∷ "FINGERPRINT_SHA1" ∷ "FINGERPRINT_HEX" ∷ "FINGERPRINT_RAW" ∷ "METHOD_KEX"
    ∷ "METHOD_HOSTKEY" ∷ "METHOD_CRYPT_CS" ∷ "METHOD_CRYPT_SC" ∷ "METHOD_MAC_CS" ∷ "METHOD_MAC_SC"
    ∷ "METHOD_COMP_CS" ∷ "METHOD_COMP_SC" ∷ "SFTP_SYMLINK" ∷ "SFTP_READLINK" ∷ "SFTP_REALPATH"
    ∷ "SFTP_STAT" ∷ "SFTP_LSTAT" ∷ "DEFAULT_BANNER" ∷ "LIBSSH2_VERSION" ∷ "CHANNEL_FLUSH_ALL"
    ∷ "CHANNEL_FLUSH_EXTENDED_DATA" ∷ []

unfoldable pub add_constants : List String → Module → Module
add_constants [] m = m
add_constants (name ∷ names) m = add_constants names (record m { names = name ∷ m.names })

-- What the interpreter answers to the calls that can fail.
pub record Answers : Type 0 where
  pub makes_module : Bool
  pub makes_api : Bool
  pub makes_error : Bool
  pub adds_error : Bool

-- The part behind the exception type `Error`.
unfoldable pub fill_module : Module → Module
unfolding init_types add_constants
fill_module m =
    init_types (session ∷ channel ∷ sftp ∷ sftpfile ∷ sftpdir ∷ [])
      (add_constants constants (record m { names = "Error" ∷ m.names }))

unfoldable pub init_error : Answers → Module → Module
init_error a m = if a.makes_error then (if a.adds_error then fill_module m else m) else m

-- `none` where no module is made.
unfoldable pub init_module : Answers → Option Module
unfolding init_error
init_module a =
    if a.makes_module
    then some (
        init_error a (record {
          names = if a.makes_api then "_C_API" ∷ [] else [];
          api = if a.makes_api then some fill_api else none;
        }))
    else none
