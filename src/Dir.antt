-- ===== src/Dir.antt =====
-- src/sftpdir.c: the methods of an open directory. Closing and freeing it is in `Store`.
pub mod Listing
pub mod Lookup
use pylibssh.Prelude.{
  ℕ, zero, suc, ℤ, pos, negsuc, is_zero, int_eq, ◌==◌, ◌&&◌, Bool, true, false, Option, none, some,
  List, [], ◌∷◌, if◌then◌else◌,
}
use pylibssh.Host.{Io, pure, ◌>>=◌, invoke, set_error, fail_with, ◌>>◌}
use pylibssh.Host.Types.{
  Ptr, Bytes, is_null_ptr, Attributes, StatDict, ssh_error, interpreter_error, Value, py_none,
  entry, listing,
}
use pylibssh.Host.Calls.{py_string_new, sftp_readdir}
use pylibssh.Report.{guarded}
use pylibssh.Stat.{sftp_attrs_to_statdict}
use pylibssh.Handles.{Handle, dir_closed_text}
use pylibssh.Channel.Streams.{prefix, shrink}

-- The length of the buffer for a name.
abbrev pub longentry_maxlen : ℤ
longentry_maxlen = pos 255

-- What comes of one call of `libssh2_sftp_readdir` with a new buffer: the buffer or its final size
-- could not be had, the end, an error, or a name with its attributes.
pub data Next : Type 0 where
  no_memory finished failed : Next
  found : Bytes → Attributes → Next

-- The lines that `read` and the loop of `list_files` share.
unfoldable pub next_entry : Ptr → Io Next
next_entry handle = do
  buffer ← invoke (py_string_new longentry_maxlen)
  if is_null_ptr buffer.ptr then set_error interpreter_error >> pure no_memory else do
    r ← invoke (sftp_readdir handle longentry_maxlen)
    if is_zero r.rc
        then pure finished
        else (if int_eq r.rc (negsuc 0) then pure failed else do
          stuck ← shrink r.rc longentry_maxlen
          if stuck
              then set_error interpreter_error >> pure no_memory
              else pure (found (prefix r.rc r.buffer) r.attrs))

unfoldable pub answer : Next → Io Value
answer no_memory = pure py_none
answer finished = pure py_none
answer failed = fail_with (ssh_error "Unable to readdir." [])
answer (found name attrs) = pure (entry name (sftp_attrs_to_statdict attrs))

unfoldable pub read : Handle → Io Value
unfolding next_entry answer
read self = guarded self.handle dir_closed_text (next_entry self.handle >>= answer)

abbrev pub bytes_eq : Bytes → Bytes → Bool
bytes_eq [] [] = true
bytes_eq (x ∷ xs) (y ∷ ys) = (x == y) && bytes_eq xs ys
bytes_eq xs ys = false

-- `PyDict_SetItem`: a key that is there keeps its place and gets the new value.
unfoldable pub set_item : Bytes → StatDict → List (Bytes × StatDict) → List (Bytes × StatDict)
set_item name stat [] = (name, stat) ∷ []
set_item name stat ((key, old) ∷ dict) =
    let rest = set_item name stat dict in
    if bytes_eq name key then (key, stat) ∷ dict else (key, old) ∷ rest

-- The body of the loop of `list_files` behind `readdir`; `again` is the next round.
unfoldable pub list_step :
    (List (Bytes × StatDict) → Io (Option Value))
    → List (Bytes × StatDict)
    → Next
    → Io (Option Value)
list_step again dict no_memory = pure (some py_none)
list_step again dict finished = pure (some (listing dict))
list_step again dict failed = fail_with (ssh_error "Unable to listdir." []) >>= λ v. pure (some v)
list_step again dict (found name attrs) = again (set_item name (sftp_attrs_to_statdict attrs) dict)

-- The loop, on fuel: `none` means that the fuel ran out.
unfoldable pub list_loop : ℕ → Ptr → List (Bytes × StatDict) → Io (Option Value)
unfolding list_step
list_loop zero handle dict = pure none
list_loop (suc fuel) handle dict = next_entry handle >>= list_step (list_loop fuel handle) dict

unfoldable pub list_files : ℕ → Handle → Io (Option Value)
list_files fuel self =
    if is_null_ptr self.handle
    then (fail_with (ssh_error dir_closed_text []) >>= λ v. pure (some v))
    else list_loop fuel self.handle []
