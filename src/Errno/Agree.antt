-- ===== src/Errno/Agree.antt =====
-- The two tables of src/sftp.c over the status codes of SFTP agree.
use pylibssh.Prelude.{
  ℤ, pos, negsuc, ◌≡◌, refl, Bool, false, ◌&&◌, ltb, String, Option, none, some, arith,
  if◌then◌else◌,
}
use pylibssh.Host.Types.{Exception, io_error}
use pylibssh.Errno.{errno_to_str, errno_to_exception}

-- The name that an `IOError` carries.
abbrev pub io_name : Exception → Option String
io_name (io_error e name) = some name
io_name e = none

-- The codes from 2 to 21.
abbrev pub is_failure : ℤ → Bool
is_failure (pos n) = ltb 1 n && ltb n 22
is_failure (negsuc n) = false

-- For the codes from 2 to 21, and for no other, the exception is an `IOError`, and its text is then
-- the name that `libssh2_sftp_errno_to_str` gives to the code.
pub exception-str :
    (err : ℤ)
    → io_name (errno_to_exception err) ≡ (if is_failure err then some (errno_to_str err) else none)
unfolding errno_to_exception errno_to_str
exception-str (pos n) = ground arith
exception-str (negsuc n) = refl
