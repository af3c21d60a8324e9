-- ===== src/File/Scope.antt =====
-- Which calls the methods of src/sftpfile.c and src/sftpdir.c make.
use pylibssh.Prelude.{◌≡◌, refl, [], some}
use pylibssh.Host.{Env, Host, set_error, pure, fail_with, ◌>>◌}
use pylibssh.Host.Types.{null_ptr, ssh_error, null}
use pylibssh.Host.Calls.{target}
use pylibssh.Report.{guarded}
use pylibssh.Report.Uses.{Uses, uses_rules}
use pylibssh.Handles.{Handle, file_closed_text}
use pylibssh.File.{read, write, tell, seek, none_with_error}
use pylibssh.File.Table.{Method, run_file}

-- Whatever libssh2 answers, a method of a file object calls libssh2 only on the object's handle, and
-- then that is not `NULL`. Its other calls are those of the allocators. None of its calls
-- takes a channel, a listener, an SFTP session or a handle from libssh2 or gives one back.
pub run_file-Uses :
    (env : Env) (self : Handle) (m : Method) → Uses self.session self.handle env (run_file m self)
unfolding run_file target read write tell seek none_with_error
run_file-Uses env self Method.tell = search uses_rules depth 18
run_file-Uses env self m = search uses_rules depth 18

-- Once its handle is closed a method of a file object calls nothing, and raises the error that says
-- so.
pub run_file-closed :
    (env : Env) (self : Handle) (m : Method) (h : Host)
    → self.handle ≡ null_ptr
    → run_file m self env h
      ≡ (null, record { log = h.log; error = some (ssh_error file_closed_text []) })
unfolding run_file read write tell seek guarded fail_with set_error pure ◌>>◌
run_file-closed env self Method.tell h closed = rw closed refl
run_file-closed env self m h closed = rw closed refl
