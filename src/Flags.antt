-- ===== src/Flags.antt =====
-- src/util.c: the mode string of `open_file` and the flags of SFTP that it stands for. The flags'
-- numbers are a parameter.
pub mod Decode
use Prim.Native.Nat.{bit_or}
use pylibssh.Prelude.{ℕ, Bool, List, [], ◌∷◌, ◌||◌, ◌==◌, if◌then◌else◌}
use pylibssh.Host.{Env}
use pylibssh.Host.Types.{fxf_read, fxf_write, fxf_append, fxf_creat, fxf_trunc, fxf_excl, Bytes}

-- `strchr(mode, c)`, read as a truth value, for a `c` that is not 0.
unfoldable pub strchr : Bytes → ℕ → Bool
strchr [] c = Bool.false
strchr (x ∷ mode) c = x == c || strchr mode c

-- An entry of `modeflags[5]`.
pub record ModeFlags : Type 0 where
  pub mode : ℕ
  pub flags : ℕ

unfoldable pub modeflags : Env → List ModeFlags
modeflags env =
    record { mode = b'a'; flags = flag fxf_append }
    ∷ record {
      mode = b'w';
      flags = bit_or (bit_or (flag fxf_write) (flag fxf_trunc)) (flag fxf_creat);
    }
    ∷ record { mode = b'r'; flags = flag fxf_read }
    ∷ record { mode = b'+'; flags = bit_or (flag fxf_read) (flag fxf_write) }
    ∷ record {
      mode = b'x';
      flags =
          bit_or (bit_or (bit_or (flag fxf_write) (flag fxf_trunc)) (flag fxf_excl))
            (flag fxf_creat);
    }
    ∷ []
  where
    open env use {open_flag as flag}

-- The loop over `modeflags`.
unfoldable pub collect : Bytes → List ModeFlags → ℕ → ℕ
unfolding strchr
collect mode [] f = f
collect mode (m ∷ rest) f = collect mode rest (if strchr mode m.mode then bit_or f m.flags else f)

unfoldable pub get_flags : Env → Bytes → ℕ
unfolding collect modeflags
get_flags env mode = collect mode (modeflags env) 0
