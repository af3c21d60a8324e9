-- ===== src/Types.antt =====
-- The tables `PyTypeObject` of src/channel.c, src/listener.c, src/sftp.c, src/sftpfile.c, src/sftpdir.c
-- and src/session.c: which functions the interpreter calls for an object of each type. The fields
-- that are 0 in all of them, the sizes and `tp_getattr`, which looks into the type's method table,
-- are left out.
pub mod Freed
use pylibssh.Prelude.{ℕ, ℤ, String, Option, none, some}
use pylibssh.Host.Types.{ObjId, Ptr}
use pylibssh.Handles.{Session, Channel, Listener, Sftp, Handle}
use pylibssh.Init.{TypeName}
use pylibssh.Identity.{channel_hash, listener_hash, sftp_hash, handle_hash, session_cmp, sftp_cmp}
use pylibssh.Store.Run.{
  Cmd, Slot, session_slot, channel_slot, listener_slot, sftp_slot, handle_slot, release,
}
use pylibssh.Store.Objects.{dealloc_channel, dealloc_listener, dealloc_handle, dealloc_sftp}
use pylibssh.Store.Sessions.{dealloc_session}

-- The struct of a type.
abbrev pub Body : TypeName → Type 0
Body TypeName.session = Session
Body TypeName.channel = Channel
Body TypeName.sftp = Sftp
Body TypeName.sftpfile = Handle
Body TypeName.sftpdir = Handle
Body TypeName.listener = Listener

-- `none` is 0. The hash functions take the hash of a pointer.
pub record TypeObject (A : Type 0) : Type 0 where
  pub tp_name : String
  pub tp_dealloc : ObjId → Cmd (Unit {0})
  pub tp_compare : Option (A → A → ℤ)
  pub tp_hash : Option ((Ptr → ℕ) → A → ℕ)
  pub tp_doc : String

unfoldable pub session_type : TypeObject Session
session_type = record {
  tp_name = "Session";
  tp_dealloc = dealloc_session;
  tp_compare = some session_cmp;
  tp_hash = none;
  tp_doc = "Sesssion  objects";
}

unfoldable pub channel_type : TypeObject Channel
channel_type = record {
  tp_name = "Channel";
  tp_dealloc = dealloc_channel;
  tp_compare = none;
  tp_hash = some channel_hash;
  tp_doc = "Channel objects";
}

-- The interpreter compares two objects that are there.
unfoldable pub sftp_type : TypeObject Sftp
sftp_type = record {
  tp_name = "Sftp";
  tp_dealloc = dealloc_sftp;
  tp_compare = some λ o1 o2. sftp_cmp (some o1) (some o2);
  tp_hash = some sftp_hash;
  tp_doc = "Sftp objects";
}

unfoldable pub sftpfile_type : TypeObject Handle
sftpfile_type = record {
  tp_name = "Sftpfile";
  tp_dealloc = dealloc_handle;
  tp_compare = none;
  tp_hash = some handle_hash;
  tp_doc = "Sftpfile objects";
}

unfoldable pub sftpdir_type : TypeObject Handle
sftpdir_type = record {
  tp_name = "Sftpdir";
  tp_dealloc = dealloc_handle;
  tp_compare = none;
  tp_hash = some handle_hash;
  tp_doc = "Sftpdir objects";
}

unfoldable pub listener_type : TypeObject Listener
listener_type = record {
  tp_name = "Listener";
  tp_dealloc = dealloc_listener;
  tp_compare = none;
  tp_hash = some listener_hash;
  tp_doc = "Listener objects";
}

abbrev pub type_object : (t : TypeName) → TypeObject (Body t)
type_object TypeName.session = session_type
type_object TypeName.channel = channel_type
type_object TypeName.sftp = sftp_type
type_object TypeName.sftpfile = sftpfile_type
type_object TypeName.sftpdir = sftpdir_type
type_object TypeName.listener = listener_type

-- Where the objects of a type are.
abbrev pub slot_of : (t : TypeName) → Slot (Body t)
slot_of TypeName.session = session_slot
slot_of TypeName.channel = channel_slot
slot_of TypeName.sftp = sftp_slot
slot_of TypeName.sftpfile = handle_slot
slot_of TypeName.sftpdir = handle_slot
slot_of TypeName.listener = listener_slot

-- `Py_DECREF` of an object of a type.
abbrev pub decref : TypeName → ObjId → Cmd (Unit {0})
decref t id = release (slot_of t) id ((type_object t).tp_dealloc id)
