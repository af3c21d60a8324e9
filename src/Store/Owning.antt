-- ===== src/Store/Owning.antt =====
-- The objects that a session of src/session.c keeps in its three sets, and what they hold of
-- libssh2's.
use mathlib.Core.List.{Mem, Nodup, flat_map}
use pylibssh.Prelude.{ℕ, suc, ◌≡◌, some, false, List, [], ◌∷◌, ◌++◌}
use pylibssh.Host.Types.{ObjId, Ptr, is_null_ptr}
use pylibssh.Handles.{Session, Channel, Listener, Sftp}
use pylibssh.Store.Run.{World}
use pylibssh.Store.Resources.{Resource, channel}
use pylibssh.Store.Closing.{Holds}
use pylibssh.Store.Freeing.{owed_by, cancelled}

-- For each object its fields, and how many references others than the session have to it; for each
-- file or directory its handle.
pub record Contents : Type 0 where
  pub sftp_of : ObjId → Sftp
  pub sftp_others : ObjId → ℕ
  pub handle_of : ObjId → Ptr
  pub channel_of : ObjId → Channel
  pub channel_others : ObjId → ℕ
  pub listener_of : ObjId → Listener
  pub listener_others : ObjId → ℕ

module _ (c : Contents) where
  -- The open directories and files of an SFTP object.
  abbrev pub items : ObjId → List ObjId
  items x = (c.sftp_of x).directories ++ (c.sftp_of x).files

  abbrev pub owed_sftp : ObjId → List Resource
  owed_sftp x = owed_by c.handle_of (c.sftp_of x)

  abbrev pub owed_channel : ObjId → List Resource
  owed_channel x = channel (c.channel_of x).channel ∷ []

  -- `Session_close` cancels a listener only where it frees it.
  abbrev pub owed_listener : ObjId → List Resource
  owed_listener x = cancelled (c.listener_others x) (c.listener_of x).listener

  abbrev pub owed : List ObjId → List ObjId → List ObjId → List Resource
  owed ss cs ls = flat_map owed_sftp ss ++ (flat_map owed_channel cs ++ flat_map owed_listener ls)

  -- The objects are there, open, and each in its set once; no two SFTP objects share a file or a
  -- directory.
  pub record Owns (s : Session) (w : World) : Type 0 where
    pub sftps_distinct : Nodup s.sftps
    pub handles_distinct : Nodup (flat_map items s.sftps)
    pub channels_distinct : Nodup s.channels
    pub listeners_distinct : Nodup s.listeners
    pub sftps_there :
        (x : ObjId)
        → Mem x s.sftps
        → w.sftps x ≡ some (record { refs = suc (c.sftp_others x); body = c.sftp_of x })
    pub sftps_open : (x : ObjId) → Mem x s.sftps → is_null_ptr (c.sftp_of x).sftp ≡ false
    pub handles_there :
        (x : ObjId) → Mem x (flat_map items s.sftps) → Holds w.handles x (c.handle_of x)
    pub channels_there :
        (x : ObjId)
        → Mem x s.channels
        → w.channels x ≡ some (record { refs = suc (c.channel_others x); body = c.channel_of x })
    pub channels_open :
        (x : ObjId) → Mem x s.channels → is_null_ptr (c.channel_of x).channel ≡ false
    pub listeners_there :
        (x : ObjId)
        → Mem x s.listeners
        → w.listeners x ≡ some (record { refs = suc (c.listener_others x); body = c.listener_of x })
    pub listeners_open :
        (x : ObjId) → Mem x s.listeners → is_null_ptr (c.listener_of x).listener ≡ false
