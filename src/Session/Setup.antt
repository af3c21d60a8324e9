-- ===== src/Session/Setup.antt =====
-- Settings and queries of a session in src/session.c: `set_banner`, `hostkey_hash`,
-- `session_methods`, `session_method_pref`, `set_blocking`, `last_error` and `set_trace`.
use pylibssh.Prelude.{
  ◌≡◌, arith, ℕ, ℤ, pos, negsuc, is_negative, String, List, [], ◌∷◌, Option, take, given, ◌==◌,
  if◌then◌else◌,
}
use pylibssh.Host.{Env, Host, Io, pure, ◌>>=◌, ◌>>◌, invoke, set_error, fail_with, parsed}
use pylibssh.Host.Types.{
  Bytes, is_null_ptr, interpreter_error, ssh_error, alloc, eagain, inval, method_not_supported,
  Algorithm, kex, hostkey, crypt_cs, crypt_sc, mac_cs, mac_sc, comp_cs, comp_sc, lang_cs, lang_sc,
  Value, py_none, int, bytes, code_and_text, methods,
}
use pylibssh.Host.Calls.{
  banner_set, session_last_error, session_set_blocking, trace, session_method_pref,
}
use pylibssh.Host.Calls
use pylibssh.Report.{plain, with_code, unless_failed}
use pylibssh.Handles.{Session}

-- `banner` is the default, `LIBSSH2_SSH_DEFAULT_BANNER"_Python"`, whose first part is libssh2's.
unfoldable pub set_banner : (banner : String) → Session → Option (Option String) → Io Value
set_banner banner self args = parsed args λ a. do
  r ← invoke (banner_set self.session (given banner a))
  unless_failed (is_negative r.rc) self.session r.rc
      ((alloc, plain " An internal memory allocation call failed.")
        ∷ (eagain, plain "Marked for non-blocking I/O but the call would block.")
        ∷ [])
      (with_code "Unknown Error %i") py_none

-- The bytes before the first 0: what `PyString_FromString` makes of a buffer.
unfoldable pub c_string : Bytes → Bytes
c_string [] = []
c_string (x ∷ xs) = let rest = c_string xs in if x == 0 then [] else x ∷ rest

-- The length of a digest: 16 for MD5, which is 1, 20 for SHA1, which is 2.
abbrev pub digest_len : ℤ → ℕ
digest_len (pos n) = if n == 1 then 16 else (if n == 2 then 20 else 0)
digest_len (negsuc n) = 0

unfoldable pub hostkey_hash : Session → Option (Option ℤ) → Io Value
hostkey_hash self args = parsed args λ a. do
  let hashtype = given (pos 1) a
  hash ← invoke (Calls.hostkey_hash self.session hashtype)
  if is_null_ptr hash.ptr
      then pure py_none
      else pure (bytes (c_string (take (digest_len hashtype) hash.buffer)))

-- The calls for the algorithms behind the first, in their order. Their answers go to
-- `PyString_FromString` without a test for `NULL`: libssh2 documents `NULL` for a session that has not
-- been started, and then the first answer is `NULL` too and these calls are not made.
unfoldable pub query : Session → List Algorithm → Io (List (Algorithm × String))
query self [] = pure []
query self (a ∷ rest) = do
  r ← invoke (Calls.session_methods self.session a)
  found ← query self rest
  pure ((a, r.text) ∷ found)

abbrev pub other_algorithms : List Algorithm
other_algorithms =
    hostkey ∷ crypt_cs ∷ crypt_sc ∷ mac_cs ∷ mac_sc ∷ comp_cs ∷ comp_sc ∷ lang_cs ∷ lang_sc ∷ []

unfoldable pub session_methods : Session → Io Value
session_methods self = do
  r ← invoke (Calls.session_methods self.session kex)
  if is_null_ptr r.ptr
      then fail_with (ssh_error "session has not yet been started no methods negociated" [])
      else (do found ← query self other_algorithms; pure (methods ((kex, r.text) ∷ found)))

unfoldable pub method_pref : Session → Option (ℤ × String) → Io Value
method_pref self args = parsed args λ a. do
  r ← invoke (session_method_pref self.session a.0 a.1)
  unless_failed (is_negative r.rc) self.session r.rc
      ((inval, plain "The requested method type was invalid.")
        ∷ (alloc, plain "An internal memory allocation call failed.")
        ∷ (method_not_supported, plain "The requested method is not supported.")
        ∷ [])
      (with_code "Unknown Error %i") py_none

unfoldable pub set_blocking : Session → Option (Option ℤ) → Io Value
set_blocking self args =
    parsed args
      λ block. do invoke (session_set_blocking self.session (given (pos 1) block)); pure py_none

unfoldable pub last_error : Session → Io Value
last_error self = do r ← invoke (session_last_error self.session); pure (code_and_text r.rc r.text)

unfoldable pub set_trace : Session → Option ℤ → Io Value
set_trace self args =
    parsed args λ bitmask. do invoke (trace self.session bitmask); pure (int (pos 0))

-- `PyObject_AsFileDescriptor` of a socket object with this descriptor; a negative number says that it
-- has none, and then an exception is set.
unfoldable pub as_file_descriptor : ℤ → Io ℤ
as_file_descriptor fd = if is_negative fd then set_error interpreter_error >> pure fd else pure fd

pub as_file_descriptor_lem :
    (env : Env) (fd : ℤ) (h : Host)
    → ((as_file_descriptor fd env h).0 ≡ fd) × ((as_file_descriptor fd env h).1.log ≡ h.log)
unfolding as_file_descriptor set_error pure ◌>>◌
as_file_descriptor_lem env fd h = ground arith
