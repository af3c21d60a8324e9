-- ===== src/Flags/Decode.antt =====
-- What the flags of a mode string are.
use Prim.Native.Nat.{bit_or}
use pylibssh.Prelude.{ℕ, ◌+◌, ◌*◌, ◌≡◌, arith, Bool, ◌||◌, if◌then◌else◌}
use pylibssh.Host.{Env}
use pylibssh.Host.Types.{Bytes, fxf_read, fxf_write, fxf_append, fxf_creat, fxf_trunc, fxf_excl}
use pylibssh.Flags.{strchr, get_flags}

-- The numbers that the SFTP protocol gives to the flags.
pub record HasProtocolFlags (env : Env) : Type 0 where
  pub read_is : env.open_flag fxf_read ≡ 1
  pub write_is : env.open_flag fxf_write ≡ 2
  pub append_is : env.open_flag fxf_append ≡ 4
  pub creat_is : env.open_flag fxf_creat ≡ 8
  pub trunc_is : env.open_flag fxf_trunc ≡ 16
  pub excl_is : env.open_flag fxf_excl ≡ 32

abbrev pub bit : Bool → ℕ
bit b = if b then 1 else 0

abbrev pub add_if : Bool → ℕ → ℕ → ℕ
add_if b flags f = if b then bit_or f flags else f

or_flags :
    (a w r p x : Bool)
    → add_if x 58 (add_if p 3 (add_if r 1 (add_if w 26 (add_if a 4 0))))
      ≡ bit (r || p)
        + bit (w || (p || x)) * 2
        + bit a * 4
        + bit (w || x) * 8
        + bit (w || x) * 16
        + bit x * 32
or_flags a w r p x = ground arith

-- With the numbers of the protocol, `get_flags` is the sum of: 1 (read) if the mode has an `r` or a
-- `+`, 2 (write) if it has a `w`, a `+` or an `x`, 4 (append) if it has an `a`, 8 (create) and 16
-- (truncate) if it has a `w` or an `x`, and 32 (exclusive) if it has an `x`. The order of the
-- characters, their repetition and other characters do not matter.
pub get_flags_lem :
    (env : Env) (mode : Bytes)
    → HasProtocolFlags env
    → let has = strchr mode in
      get_flags env mode
      ≡ bit (has b'r' || has b'+')
        + bit (has b'w' || (has b'+' || has b'x')) * 2
        + bit (has b'a') * 4
        + bit (has b'w' || has b'x') * 8
        + bit (has b'w' || has b'x') * 16
        + bit (has b'x') * 32
unfolding get_flags
get_flags_lem env mode p =
    rw (p.read_is, p.write_is, p.append_is, p.creat_is, p.trunc_is, p.excl_is)
      (or_flags (strchr mode b'a') (strchr mode b'w') (strchr mode b'r') (strchr mode b'+')
        (strchr mode b'x'))
