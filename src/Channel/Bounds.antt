-- ===== src/Channel/Bounds.antt =====
-- How much the methods that read return: `read` and `read_ex` of src/channel.c, and `read` of
-- src/sftpfile.c.
use pylibssh.Prelude.{ℕ, ℤ, pos, ◌≤◌, ◌||◌, is_negative, is_zero, int_eq, some, List, length, arith}
use pylibssh.Host.{Env, Host}
use pylibssh.Host.Types.{Ptr, null, str, is_null_ptr, py_none}
use pylibssh.Host.Calls.{Event, channel_read, sftp_read}
use pylibssh.Report.Bounds.{
  AtMost, IsBounded, bind-IsBounded, fail_with-IsBounded, guarded-IsBounded, ite-IsBounded,
  invoke-IsBounded, pure-IsBounded, report_code-IsBounded, data_of, length-prefix,
}
use pylibssh.Handles.{Channel, Handle}
use pylibssh.Host.{parsed, pure, ◌>>◌, set_error}
use pylibssh.Channel.Streams
use pylibssh.Channel.Streams.{read_buffer, shrink, prefix}
use pylibssh.File
use pylibssh.File.{none_with_error}

-- libssh2 writes no more bytes into a buffer than the caller said it has room for.
pub record Fits (env : Env) : Type 0 where
  pub of_channel :
      (log : List Event) (p : Ptr) (stream : ℤ) (n : ℕ)
      → AtMost n (env.reply log (channel_read p stream (pos n))).rc
  pub of_file :
      (log : List Event) (p : Ptr) (n : ℕ) → AtMost n (env.reply log (sftp_read p (pos n))).rc

read_buffer-IsBounded :
    (env : Env) (self : Channel) (n : ℕ) → Fits env → IsBounded env n (read_buffer self (pos n))
unfolding read_buffer
read_buffer-IsBounded env self n fits = bind-IsBounded _ λ cbuf.
    ite-IsBounded (is_null_ptr cbuf.ptr) (pure-IsBounded null (omega arith)) (
      invoke-IsBounded (λ r. AtMost n r.rc) _ (λ log. fits.of_channel log self.channel (pos 0) n)
        λ r size.
          ite-IsBounded (is_negative r.rc) (report_code-IsBounded _ _ _ _)
            (pure-IsBounded _ (length-prefix n r.rc r.buffer size)))

read-IsBounded :
    (env : Env) (self : Channel) (n : ℕ)
    → Fits env
    → IsBounded env n (Streams.read self (some (some (pos n))))
unfolding Streams.read parsed
read-IsBounded env self n fits = guarded-IsBounded _ _ (
    bind-IsBounded _ λ eof.
      ite-IsBounded (int_eq eof.rc (pos 1)) (pure-IsBounded (str "") (omega arith))
        (read_buffer-IsBounded env self n fits))

read_ex-IsBounded :
    (env : Env) (self : Channel) (n : ℕ) (stream : ℤ)
    → Fits env
    → IsBounded env n (Streams.read_ex self (some (some (pos n), some stream)))
unfolding Streams.read_ex parsed
read_ex-IsBounded env self n stream fits = guarded-IsBounded _ _ (
    bind-IsBounded _ λ buffer. ite-IsBounded (is_null_ptr buffer.ptr) (fail_with-IsBounded _) (
      invoke-IsBounded (λ r. AtMost n r.rc) _ (λ log. fits.of_channel log self.channel stream n)
        λ r size. ite-IsBounded (is_negative r.rc || is_zero r.rc) (report_code-IsBounded _ _ _ _) (
          bind-IsBounded _ λ failed.
            ite-IsBounded failed (fail_with-IsBounded _)
              (pure-IsBounded _ (length-prefix n r.rc r.buffer size)))))

none_with_error-IsBounded : (env : Env) (n : ℕ) → IsBounded env n none_with_error
unfolding none_with_error set_error pure ◌>>◌
none_with_error-IsBounded env n = record { bounded = λ h. omega arith }

file_read-IsBounded :
    (env : Env) (self : Handle) (n : ℕ)
    → Fits env
    → IsBounded env n (File.read self (some (some (pos n))))
unfolding File.read parsed
file_read-IsBounded env self n fits = guarded-IsBounded _ _ (
    bind-IsBounded _ λ buffer.
      ite-IsBounded (is_null_ptr buffer.ptr) (none_with_error-IsBounded env n) (
        invoke-IsBounded (λ r. AtMost n r.rc) _ (λ log. fits.of_file log self.handle n)
          λ r size. ite-IsBounded (is_negative r.rc) (pure-IsBounded py_none (omega arith)) (
            bind-IsBounded _ λ failed.
              ite-IsBounded failed (none_with_error-IsBounded env n)
                (pure-IsBounded _ (length-prefix n r.rc r.buffer size)))))

-- As long as libssh2 writes no more bytes into a buffer than the caller said it has room for, `read`
-- and `read_ex` of a channel object and `read` of a file object return no more bytes than the caller
-- asked for, whatever else libssh2 answers and in every state.
pub read-bound :
    (env : Env) (n : ℕ)
    → Fits env
    → ((self : Channel) (h : Host)
        → length (data_of (Streams.read self (some (some (pos n))) env h).0) ≤ n)
      × ((self : Channel) (stream : ℤ) (h : Host)
          → length (data_of (Streams.read_ex self (some (some (pos n), some stream)) env h).0) ≤ n)
      × ((self : Handle) (h : Host)
          → length (data_of (File.read self (some (some (pos n))) env h).0) ≤ n)
read-bound env n fits = (
  (λ self. (read-IsBounded env self n fits).bounded),
  (λ self stream. (read_ex-IsBounded env self n stream fits).bounded),
  (λ self. (file_read-IsBounded env self n fits).bounded),
)
