-- ===== src/Errno.antt =====
-- The two tables over the status codes of SFTP in src/sftp.c: `libssh2_sftp_errno_to_str` and
-- `libssh2_sftp_errno_to_exception`. A `switch` over an int is a look-up of its label.
pub mod Agree
use pylibssh.Prelude.{ℕ, ℤ, pos, String, List, [], ◌∷◌, int_eq, if◌then◌else◌}
use pylibssh.Host.Types.{
  enoent, eperm, eio, ebadmsg, econnaborted, eexist, eacces, enodev, enomem, edquot, edeadlock,
  enotempty, enotdir, einval, eloop, Exception, ssh_error, io_error, arg_int,
}

abbrev pub select {ℓ} : {A : Type ℓ} → ℤ → List (ℕ × A) → A → A
select rc [] other = other
select rc ((label, a) ∷ cases) other = if int_eq rc (pos label) then a else select rc cases other

unfoldable pub errno_to_str : ℤ → String
errno_to_str err = select err names "UNKNOWN ERROR"
  where
    names : List (ℕ × String)
    names =
        (0, "LIBSSH2_FX_OK")
        ∷ (1, "LIBSSH2_FX_EOF")
        ∷ (2, "LIBSSH2_FX_NO_SUCH_FILE")
        ∷ (3, "LIBSSH2_FX_PERMISSION_DENIED")
        ∷ (4, "LIBSSH2_FX_FAILURE")
        ∷ (5, "LIBSSH2_FX_BAD_MESSAGE")
        ∷ (6, "LIBSSH2_FX_NO_CONNECTION")
        ∷ (7, "LIBSSH2_FX_CONNECTION_LOST")
        ∷ (8, "LIBSSH2_FX_OP_UNSUPPORTED")
        ∷ (9, "LIBSSH2_FX_INVALID_HANDLE")
        ∷ (10, "LIBSSH2_FX_NO_SUCH_PATH")
        ∷ (11, "LIBSSH2_FX_FILE_ALREADY_EXISTS")
        ∷ (12, "LIBSSH2_FX_WRITE_PROTECT")
        ∷ (13, "LIBSSH2_FX_NO_MEDIA")
        ∷ (14, "LIBSSH2_FX_NO_SPACE_ON_FILESYSTEM")
        ∷ (15, "LIBSSH2_FX_QUOTA_EXCEEDED")
        ∷ (16, "LIBSSH2_FX_UNKNOWN_PRINCIPAL")
        ∷ (17, "LIBSSH2_FX_LOCK_CONFLICT")
        ∷ (18, "LIBSSH2_FX_DIR_NOT_EMPTY")
        ∷ (19, "LIBSSH2_FX_NOT_A_DIRECTORY")
        ∷ (20, "LIBSSH2_FX_INVALID_FILENAME")
        ∷ (21, "LIBSSH2_FX_LINK_LOOP")
        ∷ []

-- The exception that is set for a status code.
unfoldable pub errno_to_exception : ℤ → Exception
errno_to_exception err =
    select err exceptions (ssh_error "Unknown SFTP error %i" (arg_int err ∷ []))
  where
    exceptions : List (ℕ × Exception)
    exceptions =
        (2, io_error enoent "LIBSSH2_FX_NO_SUCH_FILE")
        ∷ (3, io_error eperm "LIBSSH2_FX_PERMISSION_DENIED")
        ∷ (4, io_error eio "LIBSSH2_FX_FAILURE")
        ∷ (5, io_error ebadmsg "LIBSSH2_FX_BAD_MESSAGE")
        ∷ (6, io_error eio "LIBSSH2_FX_NO_CONNECTION")
        ∷ (7, io_error econnaborted "LIBSSH2_FX_CONNECTION_LOST")
        ∷ (8, io_error eperm "LIBSSH2_FX_OP_UNSUPPORTED")
        ∷ (9, io_error eio "LIBSSH2_FX_INVALID_HANDLE")
        ∷ (10, io_error enoent "LIBSSH2_FX_NO_SUCH_PATH")
        ∷ (11, io_error eexist "LIBSSH2_FX_FILE_ALREADY_EXISTS")
        ∷ (12, io_error eacces "LIBSSH2_FX_WRITE_PROTECT")
        ∷ (13, io_error enodev "LIBSSH2_FX_NO_MEDIA")
        ∷ (14, io_error enomem "LIBSSH2_FX_NO_SPACE_ON_FILESYSTEM")
        ∷ (15, io_error edquot "LIBSSH2_FX_QUOTA_EXCEEDED")
        ∷ (16, io_error eio "LIBSSH2_FX_UNKNOWN_PRINCIPAL")
        ∷ (17, io_error edeadlock "LIBSSH2_FX_LOCK_CONFLICT")
        ∷ (18, io_error enotempty "LIBSSH2_FX_DIR_NOT_EMPTY")
        ∷ (19, io_error enotdir "LIBSSH2_FX_NOT_A_DIRECTORY")
        ∷ (20, io_error einval "LIBSSH2_FX_INVALID_FILENAME")
        ∷ (21, io_error eloop "LIBSSH2_FX_LINK_LOOP")
        ∷ []
