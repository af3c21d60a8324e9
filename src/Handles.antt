-- ===== src/Handles.antt =====
-- The structs of src/session.h, src/channel.h, src/listener.h, src/sftp.h, src/sftpfile.h and src/sftpdir.h, less
-- the header that every Python object has, and the messages of their closed objects.
use pylibssh.Prelude.{ℤ, Bool, Option, String, List}
use pylibssh.Host.Types.{Ptr, ObjId}

-- `PYLIBSSH2_CHANNEL`
pub record Channel : Type 0 where
  pub session : Ptr
  pub channel : Ptr

-- `PYLIBSSH2_LISTENER`
pub record Listener : Type 0 where
  pub session : Ptr
  pub listener : Ptr

-- `PYLIBSSH2_SFTPFILE` and `PYLIBSSH2_SFTPDIR`, which have the same fields in the same order.
pub record Handle : Type 0 where
  pub session : Ptr
  pub sftp : Ptr
  pub handle : Ptr

-- `PYLIBSSH2_SFTP`; a Python set is the list of its elements.
pub record Sftp : Type 0 where
  pub session : Ptr
  pub sftp : Ptr
  pub directories : List ObjId
  pub files : List ObjId

-- `PYLIBSSH2_SESSION` of src/session.h. The socket object is known by its file descriptor.
pub record Session : Type 0 where
  pub session : Ptr
  pub socket : Option ℤ
  pub opened : Bool
  pub sftps : List ObjId
  pub channels : List ObjId
  pub listeners : List ObjId

abbrev pub channel_closed_text : String
channel_closed_text = "Channel object has been closed/shutdown."

abbrev pub sftp_closed_text : String
sftp_closed_text = "Sftp object has been closed/shutdown."

abbrev pub file_closed_text : String
file_closed_text = "Sftpfile object has been closed/shutdown."

abbrev pub dir_closed_text : String
dir_closed_text = "Sftpdir object has been closed/shutdown."
