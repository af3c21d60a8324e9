-- ===== src/Store/Files.antt =====
-- A Python program that works with the files and directories of one SFTP object, which a session object
-- keeps: which methods of src/sftp.c, src/sftpfile.c, src/sftpdir.c and src/session.c it calls, in any
-- order, and how the references that it has to file and directory objects change.
pub mod Counts
pub mod Losses
pub mod Gains
pub mod Shuts
pub mod Led
use pylibssh.Prelude.{ℕ, ℤ, String, Option, some, ◌<◌, ◌≡◌}
use pylibssh.Host.{Env}
use pylibssh.Host.Types.{ObjId, Bytes, Value, py_none}
use pylibssh.Dir
use pylibssh.File.Table as FileTable
use pylibssh.File.Table.{run_file}
use pylibssh.Sftp.Table as SftpTable
use pylibssh.Sftp.Table.{run_sftp}
use pylibssh.Store.Run.{
  World, ok, Cmd, pure, ◌>>=◌, ◌>>◌, lift, load, retain, release, sftp_slot, handle_slot,
}
use pylibssh.Store.Objects.{dealloc_handle}
use pylibssh.Store.Sessions
use pylibssh.Store.SftpOpening.{open_dir, open_file, close_dir, close_file}
use pylibssh.Store.Program.{Held, gain, with_ref, without_ref}

-- `copies` and `drops` are an assignment and the end of a variable.
pub data Deed : Type 0 where
  opens_dir : Option String → Deed
  opens_file : Option (String × Bytes × Option ℤ) → Deed
  closes_dir closes_file copies drops reads : ObjId → Deed
  calls : FileTable.Method → ObjId → Deed
  asks : SftpTable.Method → Deed
  shuts : Deed

-- `sid` is the session object and `id` its SFTP object.
unfoldable pub act : ObjId → ObjId → Deed → Cmd Value
act sid id (opens_dir args) = open_dir id args
act sid id (opens_file args) = open_file id args
act sid id (closes_dir h) = close_dir id (some h)
act sid id (closes_file h) = close_file id (some h)
act sid id (copies h) = retain handle_slot h >> pure py_none
act sid id (drops h) = release handle_slot h (dealloc_handle h) >> pure py_none
act sid id (reads h) = do self ← load handle_slot h; lift (Dir.read self)
act sid id (calls m h) = do self ← load handle_slot h; lift (run_file m self)
act sid id (asks m) = do self ← load sftp_slot id; lift (run_sftp m self)
act sid id shuts = Sessions.sftp_shutdown sid (some id)

-- A method that returns an object gives the program a reference to it.
abbrev pub held_then : Deed → Value → Held → Held
held_then (opens_dir args) v held = gain v held
held_then (opens_file args) v held = gain v held
held_then (copies h) v held = with_ref h held
held_then (drops h) v held = without_ref h held
held_then d v held = held

-- A program uses a file or a directory object only while it has a reference to it.
abbrev pub May : Deed → Held → Type 0
May (closes_dir h) held = 0 < held h
May (closes_file h) held = 0 < held h
May (copies h) held = 0 < held h
May (drops h) held = 0 < held h
May (reads h) held = 0 < held h
May (calls m h) held = 0 < held h
May d held = Unit {0}

pub record User : Type 0 where
  pub held : Held
  pub world : World

-- The states that a program can reach.
module _ (env : Env) (sid id : ObjId) where
  pub data Leads (s : User) : User → Type 0 where
    stays : Leads s s
    then_acts :
        {t : User} {v : Value} {w : World} (d : Deed)
        → Leads s t
        → May d t.held
        → act sid id d env t.world ≡ ok v w
        → Leads s (record { held = held_then d v t.held; world = w })
