-- ===== src/Store/Objects.antt =====
-- Closing and freeing: `Channel_close` and `PYLIBSSH2_Channel_dealloc` of src/channel.c,
-- `Listener_cancel` and `PYLIBSSH2_Listener_dealloc` of src/listener.c, `PYLIBSSH2_Sftpdir_close`,
-- `PYLIBSSH2_Sftpfile_close` and the two functions `_dealloc` of src/sftpdir.c and src/sftpfile.c,
-- `Sftp_shutdown` and `PYLIBSSH2_Sftp_dealloc` of src/sftp.c.
use pylibssh.Prelude.{List, [], ◌∷◌, if◌then◌else◌}
use pylibssh.Host.{invoke}
use pylibssh.Host.Types.{ObjId, null_ptr, is_null_ptr}
use pylibssh.Host.Calls.{
  channel_close, channel_free, channel_forward_cancel, sftp_close_handle, sftp_shutdown,
}
use pylibssh.Store.Run.{
  Cmd, pure, ◌>>=◌, ◌>>◌, lift, channel_slot, listener_slot, handle_slot, sftp_slot, load, modify,
  destroy, release,
}
use pylibssh.Store.Sets.{drain}

-- `Channel_close`
unfoldable pub close_channel : ObjId → Cmd (Unit {0})
close_channel id = do
  self ← load channel_slot id
  if is_null_ptr self.channel then pure tt else do
    lift (invoke (channel_close self.channel))
    lift (invoke (channel_free self.channel))
    modify channel_slot id λ c. record c { channel = null_ptr }

unfoldable pub dealloc_channel : ObjId → Cmd (Unit {0})
dealloc_channel id = do
  self ← load channel_slot id
  if is_null_ptr self.channel then pure tt else close_channel id
  destroy channel_slot id

-- `Listener_cancel`
unfoldable pub cancel_listener : ObjId → Cmd (Unit {0})
cancel_listener id = do
  self ← load listener_slot id
  lift (invoke (channel_forward_cancel self.listener))
  modify listener_slot id λ l. record l { listener = null_ptr }

unfoldable pub dealloc_listener : ObjId → Cmd (Unit {0})
dealloc_listener id = do
  self ← load listener_slot id
  if is_null_ptr self.listener then pure tt else cancel_listener id
  destroy listener_slot id

-- `PYLIBSSH2_Sftpdir_close` and `PYLIBSSH2_Sftpfile_close`, which do the same.
unfoldable pub close_handle : ObjId → Cmd (Unit {0})
close_handle id = do
  self ← load handle_slot id
  lift (invoke (sftp_close_handle self.handle))
  modify handle_slot id λ h. record h { handle = null_ptr }

-- `PYLIBSSH2_Sftpdir_dealloc` and `PYLIBSSH2_Sftpfile_dealloc`: the memory is given back only if the
-- handle was still open.
unfoldable pub dealloc_handle : ObjId → Cmd (Unit {0})
dealloc_handle id = do
  self ← load handle_slot id
  if is_null_ptr self.handle then pure tt else do
    lift (invoke (sftp_close_handle self.handle))
    modify handle_slot id λ h. record h { handle = null_ptr }
    destroy handle_slot id

-- The body of both loops of `Sftp_shutdown`, which closes files by `PYLIBSSH2_Sftpdir_close` too.
unfoldable pub finish_handle : ObjId → Cmd (Unit {0})
finish_handle item = close_handle item >> release handle_slot item (dealloc_handle item)

abbrev pub directories : ObjId → Cmd (List ObjId)
directories id = do self ← load sftp_slot id; pure self.directories

abbrev pub set_directories : ObjId → List ObjId → Cmd (Unit {0})
set_directories id xs = modify sftp_slot id λ s. record s { directories = xs }

abbrev pub files : ObjId → Cmd (List ObjId)
files id = do self ← load sftp_slot id; pure self.files

abbrev pub set_files : ObjId → List ObjId → Cmd (Unit {0})
set_files id xs = modify sftp_slot id λ s. record s { files = xs }

-- `Sftp_shutdown`
unfoldable pub shutdown_sftp : ObjId → Cmd (Unit {0})
shutdown_sftp id = do
  self ← load sftp_slot id
  if is_null_ptr self.sftp then pure tt else do
    drain (directories id) (set_directories id) finish_handle
    drain (files id) (set_files id) finish_handle
    lift (invoke (sftp_shutdown self.sftp))
    modify sftp_slot id λ s. record s { sftp = null_ptr }

-- The end of a set: each element loses the reference that the set held.
unfoldable pub free_set : (ObjId → Cmd (Unit {0})) → List ObjId → Cmd (Unit {0})
free_set drop [] = pure tt
free_set drop (x ∷ xs) = drop x >> free_set drop xs

unfoldable pub dealloc_sftp : ObjId → Cmd (Unit {0})
dealloc_sftp id = do
  self ← load sftp_slot id
  if is_null_ptr self.sftp then pure tt else shutdown_sftp id
  left ← load sftp_slot id
  free_set (λ item. release handle_slot item (dealloc_handle item)) left.directories
  free_set (λ item. release handle_slot item (dealloc_handle item)) left.files
  destroy sftp_slot id
