-- ===== src/Examples/Tables.antt =====
-- The theorems on the tables, on the flags and on the listing of a directory, at concrete inputs.
use pylibssh.Prelude.{pos, ◌≡◌, refl, none, some, [], ◌∷◌, ◌||◌, ◌+◌, ◌*◌, if◌then◌else◌}
use pylibssh.Host.{invoke, pure, ◌>>=◌}
use pylibssh.Host.Types.{st_uid, st_gid}
use pylibssh.Errno.{errno_to_str, errno_to_exception}
use pylibssh.Errno.Agree.{io_name, is_failure, exception-str}
use pylibssh.Flags.{get_flags, strchr}
use pylibssh.Flags.Decode.{bit, get_flags_lem}
use pylibssh.Sftp.Attrs.{requested, AttrDict, long}
use pylibssh.Sftp.Request.{requested_fields}
use pylibssh.Dir.{next_entry}
use pylibssh.Dir.Listing.{Serves, last, more}
use pylibssh.Examples.{env, start, no_attrs}

exception-str_example :
    io_name (errno_to_exception (pos 2))
    ≡ (if is_failure (pos 2) then some (errno_to_str (pos 2)) else none)
exception-str_example = exception-str (pos 2)

get_flags_lem_example :
    let has = strchr (b'r' ∷ b'+' ∷ []) in
    get_flags env (b'r' ∷ b'+' ∷ [])
    ≡ bit (has b'r' || has b'+')
      + bit (has b'w' || (has b'+' || has b'x')) * 2
      + bit (has b'a') * 4
      + bit (has b'w' || has b'x') * 8
      + bit (has b'w' || has b'x') * 16
      + bit (has b'x') * 32
get_flags_lem_example = get_flags_lem env (b'r' ∷ b'+' ∷ []) (record {
  read_is = refl;
  write_is = refl;
  append_is = refl;
  creat_is = refl;
  trunc_is = refl;
  excl_is = refl;
})

-- `chown 3:4`
abbrev owner_and_group : AttrDict
owner_and_group st_uid = some (long (pos 3))
owner_and_group st_gid = some (long (pos 4))
owner_and_group key = none

requested_fields_example :
    let attr = (requested owner_and_group env start).0 in
    (attr.permissions ≡ none)
    × (attr.gid ≡ none)
    × (attr.atime ≡ none)
    × (attr.mtime ≡ none)
    × (attr.uid ≡ some 4)
requested_fields_example = requested_fields env owner_and_group start

pub one_entry : Serves env 10 start (((b'a' ∷ []), no_attrs) ∷ [])
unfolding next_entry invoke pure ◌>>=◌
one_entry =
    more (b'a' ∷ []) no_attrs
      (record {
        size = 0;
        allocates = refl;
        returns = refl;
        names = refl;
        describes = refl;
        resizes = refl;
      })
      (last (record { allocates = refl; returns = refl }))
