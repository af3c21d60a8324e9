-- ===== src/Store/Files/Led.antt =====
-- What holds in every state that a program with the files and directories of an SFTP object can reach.
use pylibssh.Prelude.{ℕ, ◌+◌, ◌≡◌, subst, Bool, true, Option, none, some, is_some, ltb, ◌||◌, arith}
use pylibssh.Host.{Env}
use pylibssh.Host.Types.{ObjId}
use pylibssh.Dir
use pylibssh.Handles.{Handle}
use pylibssh.File.Table.{run_file}
use pylibssh.Store.Run.{Counted, World, ok, pure, ◌>>=◌, lift, load}
use pylibssh.Store.Returns.{Returns, returns, chain}
use pylibssh.Store.Program.{Held}
use pylibssh.Store.Files.{
  Deed, opens_dir, opens_file, closes_dir, closes_file, copies, drops, reads, calls, asks, shuts,
  act, held_then, May, User, Leads, stays, then_acts,
}
use pylibssh.Store.Files.Counts.{closed, in_sets, UsedEntry, Filed, Filed-host}
use pylibssh.Store.Files.Losses.{
  copies-Filed, drops-Filed, calls-Filed, closes_dir-Filed, closes_file-Filed,
}
use pylibssh.Store.Files.Gains.{open_dir-Filed, open_file-Filed}
use pylibssh.Store.Files.Shuts.{sftp_shutdown-Filed}

module _ (env : Env) (sid id : ObjId) (shut : ObjId → Bool) (held : Held) (w : World)
    (k : Filed sid id shut held w) where
  act-Filed :
      (d : Deed)
      → May d held
      → Returns (λ v w'. Filed sid id shut (held_then d v held) w') (act sid id d env w)
  unfolding act pure load lift ◌>>=◌
  act-Filed (opens_dir args) may = open_dir-Filed env sid id shut held w args k
  act-Filed (opens_file args) may = open_file-Filed env sid id shut held w args k
  act-Filed (closes_dir h) may = closes_dir-Filed env sid id h shut held w k may
  act-Filed (closes_file h) may = closes_file-Filed env sid id h shut held w k may
  act-Filed (copies h) may =
      chain env _ _ w (copies-Filed env sid id h shut held w k may) λ _ w' k'. returns k'
  act-Filed (drops h) may =
      chain env _ _ w (drops-Filed env sid id h shut held w k may) λ _ w' k'. returns k'
  act-Filed (reads h) may = calls-Filed env sid id h shut held w k may Dir.read
  act-Filed (calls m h) may = calls-Filed env sid id h shut held w k may (run_file m)
  act-Filed (asks m) may = rw k.sftp_there (returns (Filed-host k _))
  act-Filed shuts may = sftp_shutdown-Filed env sid id shut held w k

acted : {A : Type 0} {P : A → World → Type 0} {a : A} {w : World} → Returns P (ok a w) → P a w
acted (returns p) = p

module _ (env : Env) (sid id : ObjId) (shut : ObjId → Bool) (s : User)
    (k : Filed sid id shut s.held s.world) where
  Leads-Filed : {t : User} → Leads env sid id s t → Filed sid id shut t.held t.world
  Leads-Filed stays = k
  Leads-Filed (then_acts {t} {v} {w} d before may runs) = acted (
      subst (Returns (λ v' w'. Filed sid id shut (held_then d v' t.held) w')) runs
        (act-Filed env sid id shut t.held t.world (Leads-Filed before) d may))

there_iff :
    (h n : ℕ) (e : Option (Counted Handle))
    → UsedEntry h n e
    → is_some e ≡ (ltb 0 (h + n) || closed e)
there_iff h n none l = ground (arith, l)
there_iff h n (some k) l = ground (arith, l.adds_up, l.is_closed)

-- A program begins with a session object and an SFTP object to which there is a reference more than
-- the session's set has, and whose sets have no object twice; each file or directory object has as
-- many references as the program and the sets of the SFTP object have to it, of those in memory only
-- closed ones have none, and the numbers of new objects are free. Then in every state that the
-- program reaches by `open_dir`, `open_file`, `close_dir`, `close_file` and `sftp_shutdown`, by the
-- methods of the SFTP object, of files and of directories, but for `list_files`, and by copying and
-- dropping its references, a file or directory object is in memory if and only if the program or a
-- set has a reference to it, or it is closed: no object is freed too early, and only closed ones are
-- left.
pub Leads-is_some :
    (env : Env) (sid id : ObjId) (shut : ObjId → Bool) (s t : User) (x : ObjId)
    → Filed sid id shut s.held s.world
    → Leads env sid id s t
    → is_some (t.world.handles x)
      ≡ (ltb 0 (t.held x + in_sets x (t.world.sftps id)) || closed (t.world.handles x))
Leads-is_some env sid id shut s t x k led =
    let k' = Leads-Filed env sid id shut s k led in
    rw k'.sftp_there (there_iff (t.held x) _ (t.world.handles x) (k'.entries x))

-- A program begins as for `Leads-is_some`. In every state that the program reaches by `open_dir`,
-- `open_file`, `close_dir`, `close_file` and `sftp_shutdown`, by the methods of the SFTP object, of
-- files and of directories, but for `list_files`, and by copying and dropping its references, a file
-- or directory object that was in memory and closed at the start still is, even if no reference to
-- it is left.
pub Leads-closed :
    (env : Env) (sid id : ObjId) (shut : ObjId → Bool) (s t : User) (x : ObjId)
    → Filed sid id shut s.held s.world
    → Leads env sid id s t
    → closed (s.world.handles x) ≡ true
    → closed (t.world.handles x) ≡ true
Leads-closed env sid id shut s t x k led is_closed =
    let k' : Filed sid id (λ y. closed (s.world.handles y)) s.held s.world = record {
      session = k.session;
      session_there = k.session_there;
      sftp = k.sftp;
      sftp_there = k.sftp_there;
      enough = k.enough;
      entries = k.entries;
      once = k.once;
      fresh = k.fresh;
      stay = λ y e. e;
    } in
    let k'' = Leads-Filed env sid id (λ y. closed (s.world.handles y)) s k' led in
    k''.stay x is_closed
