-- ===== src/Identity.antt =====
-- The functions `_hash` of src/channel.c, src/listener.c, src/sftp.c, src/sftpdir.c and
-- src/sftpfile.c, and the functions `_cmp` of src/session.c and src/sftp.c. A C `long` is a number
-- below 2 ^ 64, in two's complement.
pub mod Protocol
use Prim.Native.Nat.{bit_xor}
use pylibssh.Prelude.{ℕ, ℤ, pos, negsuc, Bool, ◌&&◌, Option, none, some, ◌==◌, if◌then◌else◌}
use pylibssh.Host.Types.{Ptr}
use pylibssh.Handles.{Session, Channel, Listener, Handle, Sftp}

-- -1 and -2 as a `long`.
abbrev pub minus_one : ℕ
minus_one = 0xFFFF_FFFF_FFFF_FFFF

abbrev pub minus_two : ℕ
minus_two = 0xFFFF_FFFF_FFFF_FFFE

-- The last lines of each of these functions, where -1 is kept for an error.
unfoldable pub mix : ℕ → ℕ → ℕ
mix h1 h2 = let h = bit_xor h1 h2 in if h == minus_one then minus_two else h

-- What the five functions share: the hashes of two pointers, each of which can fail.
unfoldable pub hash_pair : ℕ → ℕ → ℕ
unfolding mix
hash_pair h1 h2 =
    if h1 == minus_one then minus_one else if h2 == minus_one then minus_one else mix h1 h2

-- The hash of the handle is computed, and is used only where it fails.
unfoldable pub hash_three : ℕ → ℕ → ℕ → ℕ
unfolding mix
hash_three h1 h2 h3 =
    if h1 == minus_one
    then minus_one
    else if h2 == minus_one
    then minus_one
    else if h3 == minus_one
    then minus_one
    else mix h1 h2

-- `hash` stands for `PyObject_Hash(PyLong_FromVoidPtr(p))`.
module _ (hash : Ptr → ℕ) where
  unfoldable pub channel_hash : Channel → ℕ
  unfolding hash_pair
  channel_hash self = hash_pair (hash self.channel) (hash self.session)

  unfoldable pub listener_hash : Listener → ℕ
  unfolding hash_pair
  listener_hash self = hash_pair (hash self.listener) (hash self.session)

  unfoldable pub sftp_hash : Sftp → ℕ
  unfolding hash_pair
  sftp_hash self = hash_pair (hash self.sftp) (hash self.session)

  -- `PYLIBSSH2_Sftpfile_hash` and `PYLIBSSH2_Sftpdir_hash`, which do the same.
  unfoldable pub handle_hash : Handle → ℕ
  unfolding hash_three
  handle_hash self = hash_three (hash self.sftp) (hash self.session) (hash self.handle)

abbrev pub truth : Bool → ℤ
truth b = if b then pos 1 else pos 0

unfoldable pub session_cmp : Session → Session → ℤ
session_cmp o1 o2 = truth (o1.session == o2.session)

-- `none` is a `NULL` argument.
unfoldable pub sftp_cmp : Option Sftp → Option Sftp → ℤ
sftp_cmp (some self) (some other) = truth (self.session == other.session && self.sftp == other.sftp)
sftp_cmp (some self) none = pos 1
sftp_cmp none (some other) = negsuc 0
sftp_cmp none none = pos 0
