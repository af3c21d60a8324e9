-- ===== src/Store/Client.antt =====
-- A Python program that works with all objects of one session: the methods of src/session.c,
-- src/channel.c, src/listener.c, src/sftp.c, src/sftpfile.c and src/sftpdir.c in any order, and how the
-- references that it has to the objects change.
pub mod Tally
pub mod State
pub mod Losses
pub mod Steps
pub mod Shutting
pub mod Sftps
pub mod Closing
pub mod Discarding
pub mod Gains
pub mod Tracks
pub mod Opens
pub mod Receiving
pub mod Openings
pub mod Lost
pub mod Served
pub mod Present
pub mod Ended
use pylibssh.Prelude.{ℕ, ℤ, String, Option, none, some, ◌<◌, ◌≡◌}
use pylibssh.Host.{Env}
use pylibssh.Host.Types.{ObjId, Ptr, Bytes, Value, object, object_and_stat, py_none}
use pylibssh.Dir
use pylibssh.Channel.Table as ChannelTable
use pylibssh.Channel.Table.{run_channel}
use pylibssh.File.Table as FileTable
use pylibssh.File.Table.{run_file}
use pylibssh.Sftp.Table as SftpTable
use pylibssh.Sftp.Table.{run_sftp}
use pylibssh.Session.Table as SessionTable
use pylibssh.Session.Table.{run_session}
use pylibssh.Store.Run.{
  World, ok, Cmd, pure, ◌>>=◌, ◌>>◌, lift, load, retain, release, session_slot, channel_slot,
  listener_slot, sftp_slot, handle_slot,
}
use pylibssh.Store.Objects.{dealloc_channel, dealloc_listener, dealloc_sftp, dealloc_handle}
use pylibssh.Store.Startup
use pylibssh.Store.Sessions
use pylibssh.Store.Opening
use pylibssh.Store.Opening.{BoundToNull}
use pylibssh.Store.SftpOpening
use pylibssh.Store.Program.{Held, gain, with_ref, without_ref}
use pylibssh.Store.Client.State.{Refs, Steady}

-- The types of objects but for the session.
pub data Sort : Type 0 where
  a_channel a_listener an_sftp a_handle : Sort

-- A method that is called, with its objects and its arguments; `copy` and `drop` are an assignment and
-- the end of a variable.
pub data Request : Type 0 where
  startup : Option ℤ → Request
  on_session : SessionTable.Method → Request
  open_session sftp_init : Request
  scp_recv : Option String → Request
  scp_send : Option (String × ℤ × ℕ × ℤ × ℤ) → Request
  forward_listen : Option (String × ℤ × Ptr × ℤ) → Request
  close : Option (Option String) → Request
  channel_close sftp_shutdown forward_cancel accept read_dir : ObjId → Request
  on_channel : ChannelTable.Method → ObjId → Request
  on_sftp : SftpTable.Method → ObjId → Request
  on_file : FileTable.Method → ObjId → Request
  open_dir : Option String → ObjId → Request
  open_file : Option (String × Bytes × Option ℤ) → ObjId → Request
  close_dir close_file : ObjId → ObjId → Request
  copy drop : Sort → ObjId → Request

abbrev pub copy_ref : Sort → ObjId → Cmd (Unit {0})
copy_ref a_channel x = retain channel_slot x
copy_ref a_listener x = retain listener_slot x
copy_ref an_sftp x = retain sftp_slot x
copy_ref a_handle x = retain handle_slot x

abbrev pub drop_ref : Sort → ObjId → Cmd (Unit {0})
drop_ref a_channel x = release channel_slot x (dealloc_channel x)
drop_ref a_listener x = release listener_slot x (dealloc_listener x)
drop_ref an_sftp x = release sftp_slot x (dealloc_sftp x)
drop_ref a_handle x = release handle_slot x (dealloc_handle x)

-- `sid` is the session object.
unfoldable pub serve : ObjId → Request → Cmd Value
serve sid (startup args) = Startup.startup sid args
serve sid (on_session m) = do self ← load session_slot sid; lift (run_session m self)
serve sid open_session = Opening.open_session sid
serve sid sftp_init = Opening.init_sftp sid
serve sid (scp_recv args) = Opening.recv sid args
serve sid (scp_send args) = Opening.send sid args
serve sid (forward_listen args) = Opening.forward_listen sid args
serve sid (close args) = Sessions.close sid args
serve sid (channel_close c) = Sessions.channel_close sid (some c)
serve sid (sftp_shutdown s) = Sessions.sftp_shutdown sid (some s)
serve sid (forward_cancel l) = Sessions.forward_cancel sid (some l)
serve sid (accept l) = Opening.accept l
serve sid (read_dir h) = do self ← load handle_slot h; lift (Dir.read self)
serve sid (on_channel m c) = do self ← load channel_slot c; lift (run_channel m self)
serve sid (on_sftp m s) = do self ← load sftp_slot s; lift (run_sftp m self)
serve sid (on_file m h) = do self ← load handle_slot h; lift (run_file m self)
serve sid (open_dir args s) = SftpOpening.open_dir s args
serve sid (open_file args s) = SftpOpening.open_file s args
serve sid (close_dir s h) = SftpOpening.close_dir s (some h)
serve sid (close_file s h) = SftpOpening.close_file s (some h)
serve sid (copy t x) = copy_ref t x >> pure py_none
serve sid (drop t x) = drop_ref t x >> pure py_none

-- The reference in the pair that `scp_recv` returns.
abbrev pub gain_pair : Value → Held → Held
gain_pair (object_and_stat (object c) stat) held = with_ref c held
gain_pair v held = held

-- `scp_recv` makes one reference more than the program gets.
abbrev pub gain_twice : Value → Held → Held
gain_twice (object_and_stat (object c) stat) held = with_ref c (with_ref c held)
gain_twice v held = held

abbrev pub copied_ref : Sort → ObjId → Refs → Refs
copied_ref a_channel x refs = record refs { channels = with_ref x refs.channels }
copied_ref a_listener x refs = record refs { listeners = with_ref x refs.listeners }
copied_ref an_sftp x refs = record refs { sftps = with_ref x refs.sftps }
copied_ref a_handle x refs = record refs { handles = with_ref x refs.handles }

abbrev pub dropped_ref : Sort → ObjId → Refs → Refs
dropped_ref a_channel x refs = record refs { channels = without_ref x refs.channels }
dropped_ref a_listener x refs = record refs { listeners = without_ref x refs.listeners }
dropped_ref an_sftp x refs = record refs { sftps = without_ref x refs.sftps }
dropped_ref a_handle x refs = record refs { handles = without_ref x refs.handles }

-- The references that the program has behind a request that returned a value.
abbrev pub refs_after : Request → Value → Refs → Refs
refs_after open_session v refs = record refs { channels = gain v refs.channels }
refs_after (scp_send args) v refs = record refs { channels = gain v refs.channels }
refs_after (scp_recv args) v refs = record refs { channels = gain_pair v refs.channels }
refs_after (accept l) v refs = record refs { channels = gain v refs.channels }
refs_after sftp_init v refs = record refs { sftps = gain v refs.sftps }
refs_after (forward_listen args) v refs = record refs { listeners = gain v refs.listeners }
refs_after (open_dir args s) v refs = record refs { handles = gain v refs.handles }
refs_after (open_file args s) v refs = record refs { handles = gain v refs.handles }
refs_after (copy t x) v refs = copied_ref t x refs
refs_after (drop t x) v refs = dropped_ref t x refs
refs_after q v refs = refs

-- How many references to each channel object are lost: `scp_recv` makes one that nothing ever gives
-- back.
abbrev pub lost_after : Request → Value → Held → Held
lost_after (scp_recv args) v lost = gain_pair v lost
lost_after q v lost = lost

abbrev pub Has : Sort → ObjId → Refs → Type 0
Has a_channel x refs = 0 < refs.channels x
Has a_listener x refs = 0 < refs.listeners x
Has an_sftp x refs = 0 < refs.sftps x
Has a_handle x refs = 0 < refs.handles x

-- A program uses an object only while it has a reference to it. It gives `forward_listen` no port to
-- write to.
abbrev pub Permitted : Request → Refs → Type 0
Permitted (channel_close c) refs = Has a_channel c refs
Permitted (on_channel m c) refs = Has a_channel c refs
Permitted (sftp_shutdown s) refs = Has an_sftp s refs
Permitted (on_sftp m s) refs = Has an_sftp s refs
Permitted (open_dir args s) refs = Has an_sftp s refs
Permitted (open_file args s) refs = Has an_sftp s refs
Permitted (close_dir s h) refs = Has an_sftp s refs × Has a_handle h refs
Permitted (close_file s h) refs = Has an_sftp s refs × Has a_handle h refs
Permitted (forward_listen args) refs = BoundToNull args
Permitted (forward_cancel l) refs = Has a_listener l refs
Permitted (accept l) refs = Has a_listener l refs
Permitted (read_dir h) refs = Has a_handle h refs
Permitted (on_file m h) refs = Has a_handle h refs
Permitted (copy t x) refs = Has t x refs
Permitted (drop t x) refs = Has t x refs
Permitted q refs = Unit {0}

pub record Client : Type 0 where
  pub refs : Refs
  pub lost : Held
  pub world : World

-- The states that a program can get to.
module _ (env : Env) (sid : ObjId) where
  pub data Arrives (s : Client) : Client → Type 0 where
    here : Arrives s s
    serves :
        {t : Client} {v : Value} {w : World} (q : Request)
        → Arrives s t
        → Permitted q t.refs
        → serve sid q env t.world ≡ ok v w
        → Arrives s
            (record { refs = refs_after q v t.refs; lost = lost_after q v t.lost; world = w })
