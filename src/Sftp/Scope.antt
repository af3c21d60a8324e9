-- ===== src/Sftp/Scope.antt =====
-- Which calls the methods of src/sftp.c on paths and attributes make, and what they return.
use pylibssh.Prelude.{◌≡◌, refl, Option, some, none, is_some, false, String, []}
use pylibssh.Host.{Env, Host, Io, set_error, pure, fail_with, parsed, ◌>>=◌, ◌>>◌}
use pylibssh.Host.Types.{
  RequestAttributes, AttrFlag, StatKey, st_mode, st_uid, st_gid, st_atime, st_mtime, null_ptr,
  is_null_ptr, ssh_error, null, is_null,
}
use pylibssh.Host.Calls.{target}
use pylibssh.Report.{guarded}
use pylibssh.Report.Uses.{Uses, uses_rules}
use pylibssh.Report.Honest.{IsHonest, honest_rules, guarded-IsHonest}
use pylibssh.Handles.{Sftp, sftp_closed_text}
use pylibssh.Sftp.Table.{Method, run_sftp}
use pylibssh.Sftp.Paths.{unlink, rename, mkdir, rmdir, realpath, readlink, symlink}
use pylibssh.Sftp.Attrs.{
  Item, long, no_long, AttrDict, get_stat, set_stat, send_setstat, requested, set_mode, set_both,
  set_uid, as_long, clear_error, flag_of,
}

module _ (env : Env) (self : Sftp) where
  -- To read the dictionary nothing is called.
  as_long-Uses : (item : Item) → Uses self.session self.sftp env (as_long item)
  unfolding as_long
  as_long-Uses (long n) = search uses_rules depth 18
  as_long-Uses (no_long e) = search uses_rules depth 18

  flag_of-Uses : (f : AttrFlag) → Uses self.session self.sftp env (flag_of f)
  unfolding flag_of
  flag_of-Uses f = record { uses = λ h. ([], refl, tt) }

  clear_error-Uses : Uses self.session self.sftp env clear_error
  unfolding clear_error
  clear_error-Uses = record { uses = λ h. ([], refl, tt) }

  set_mode-Uses :
      (mode : Option Item) (attr : RequestAttributes)
      → Uses self.session self.sftp env (set_mode mode attr)
  unfolding set_mode
  set_mode-Uses none attr = search (uses_rules, clear_error-Uses) depth 18
  set_mode-Uses (some mode) attr = search (uses_rules, as_long-Uses, flag_of-Uses) depth 18

  set_both-Uses :
      (f : AttrFlag) (a b : Option Item) (attr : RequestAttributes)
      → Uses self.session self.sftp env (set_both f a b attr)
  unfolding set_both set_uid
  set_both-Uses f none b attr = search (uses_rules, clear_error-Uses) depth 18
  set_both-Uses f (some a) none attr = search (uses_rules, clear_error-Uses) depth 18
  set_both-Uses f (some a) (some b) attr = search (uses_rules, as_long-Uses, flag_of-Uses) depth 18

  requested-Uses : (attrs : AttrDict) → Uses self.session self.sftp env (requested attrs)
  unfolding requested
  requested-Uses attrs = search (uses_rules, set_mode-Uses, set_both-Uses) depth 18

  send_setstat-Uses :
      (path : String) (attr : RequestAttributes)
      → is_null_ptr self.sftp ≡ false
      → Uses self.session self.sftp env (send_setstat self path attr)
  unfolding send_setstat target
  send_setstat-Uses path attr live = search uses_rules depth 18

  send_setstat-IsHonest :
      (path : String) (attr : RequestAttributes) → IsHonest env (send_setstat self path attr)
  unfolding send_setstat
  send_setstat-IsHonest path attr = search honest_rules depth 18

-- A value that is a `long`, or is not there.
abbrev pub IsLong : Option Item → Type 0
IsLong none = Unit {0}
IsLong (some (long n)) = Unit {0}
IsLong (some (no_long e)) = ⊥

-- A step that sets no exception.
record IsClean {A : Type 0} (env : Env) (m : Io A) : Type 0 where
  pub clean : (h : Host) → h.error ≡ none → (m env h).1.error ≡ none

module _ (env : Env) where
  set_mode-IsClean :
      (mode : Option Item) (attr : RequestAttributes)
      → IsLong mode
      → IsClean env (set_mode mode attr)
  unfolding set_mode as_long clear_error flag_of pure ◌>>=◌ ◌>>◌
  set_mode-IsClean none attr l = record { clean = λ h e. refl }
  set_mode-IsClean (some (long n)) attr l = record { clean = λ h e. e }
  set_mode-IsClean (some (no_long x)) attr l = absurd l

  set_both-IsClean :
      (f : AttrFlag) (a b : Option Item) (attr : RequestAttributes)
      → IsLong a
      → IsLong b
      → IsClean env (set_both f a b attr)
  unfolding set_both set_uid as_long clear_error flag_of pure ◌>>=◌ ◌>>◌
  set_both-IsClean f none b attr l l' = record { clean = λ h e. refl }
  set_both-IsClean f (some a) none attr l l' = record { clean = λ h e. refl }
  set_both-IsClean f (some (long n)) (some (long m)) attr l l' = record { clean = λ h e. e }
  set_both-IsClean f (some (no_long x)) (some b) attr l l' = absurd l
  set_both-IsClean f (some (long n)) (some (no_long x)) attr l l' = absurd l'

  requested-IsClean :
      (attrs : AttrDict) → ((key : StatKey) → IsLong (attrs key)) → IsClean env (requested attrs)
  unfolding requested ◌>>=◌
  requested-IsClean attrs l = record {
    clean = λ h e.
        (set_both-IsClean _ (attrs st_atime) (attrs st_mtime) _ (l st_atime) (l st_mtime)).clean _ (
          (set_both-IsClean _ (attrs st_uid) (attrs st_gid) _ (l st_uid) (l st_gid)).clean _
            ((set_mode-IsClean (attrs st_mode) _ (l st_mode)).clean h e));
  }

  -- The two together.
  sends-IsHonest :
      (self : Sftp) (path : String) (attrs : AttrDict)
      → ((key : StatKey) → IsLong (attrs key))
      → IsHonest env (requested attrs >>= send_setstat self path)
  unfolding ◌>>=◌
  sends-IsHonest self path attrs l = record {
    honest = λ h e.
        (send_setstat-IsHonest env self path _).honest _ ((requested-IsClean attrs l).clean h e);
  }

-- `set_stat` gets values that `PyLong_AsLong` accepts.
abbrev pub Accepts : Method → Type 0
Accepts (Method.set_stat (some a)) = (key : StatKey) → IsLong (a.1 key)
Accepts m = Unit {0}

-- Whatever libssh2 answers, a method of an SFTP object on paths and attributes calls libssh2 only to
-- ask for the last error of the object's session, or on the object's SFTP session, and then that is
-- not `NULL`. None of its calls takes a channel, a listener, an SFTP session or a handle from libssh2
-- or gives one back.
pub run_sftp-Uses :
    (env : Env) (self : Sftp) (m : Method) → Uses self.session self.sftp env (run_sftp m self)
unfolding run_sftp target unlink rename mkdir rmdir realpath readlink symlink get_stat set_stat
run_sftp-Uses env self (Method.set_stat args) =
    search (uses_rules, requested-Uses, send_setstat-Uses) depth 18
run_sftp-Uses env self m = search uses_rules depth 18

run_sftp-IsHonest :
    (env : Env) (self : Sftp) (m : Method) → Accepts m → IsHonest env (run_sftp m self)
unfolding run_sftp unlink rename mkdir rmdir realpath readlink symlink get_stat set_stat parsed
run_sftp-IsHonest env self (Method.set_stat none) may = search honest_rules depth 18
run_sftp-IsHonest env self (Method.set_stat (some a)) may =
    guarded-IsHonest env self.sftp sftp_closed_text _ (sends-IsHonest env self a.0 a.1 may)
run_sftp-IsHonest env self m may = search honest_rules depth 18

-- Every method of an SFTP object on paths and attributes, called while no exception is set and, for
-- `set_stat`, with values in the dictionary that `PyLong_AsLong` accepts, returns `NULL` exactly if
-- it has set an exception when it returns.
pub run_sftp-is_null :
    (env : Env) (self : Sftp) (m : Method) (h : Host)
    → Accepts m
    → h.error ≡ none
    → let r = run_sftp m self env h in is_null r.0 ≡ is_some r.1.error
run_sftp-is_null env self m h may clean = (run_sftp-IsHonest env self m may).honest h clean

-- Once the SFTP session is shut down such a method calls nothing, and raises the error that says so.
pub run_sftp-closed :
    (env : Env) (self : Sftp) (m : Method) (h : Host)
    → self.sftp ≡ null_ptr
    → run_sftp m self env h
      ≡ (null, record { log = h.log; error = some (ssh_error sftp_closed_text []) })
unfolding run_sftp unlink rename mkdir rmdir realpath readlink symlink get_stat set_stat guarded
    fail_with set_error pure ◌>>◌
run_sftp-closed env self (Method.unlink args) h closed = rw closed refl
run_sftp-closed env self m h closed = rw closed refl
