-- ===== src/Examples/Bounds.antt =====
-- The theorems on how much is returned and on directories, at concrete inputs.
use pylibssh.Prelude.{ℤ, suc, pos, ◌≤◌, ◌≡◌, refl, some, List, [], ◌∷◌, length, arith}
use pylibssh.Host.{Env, Host}
use pylibssh.Host.Types.{Bytes, StatDict, listing}
use pylibssh.Host.Calls.{Call, Reply, Event, channel_read, sftp_read}
use pylibssh.Handles.{Channel, Handle}
use pylibssh.Report.Bounds.{data_of}
use pylibssh.Channel.Streams
use pylibssh.Channel.Bounds.{Fits, read-bound}
use pylibssh.File
use pylibssh.Session.Setup.{digest_len, hostkey_hash}
use pylibssh.Session.Digest.{hostkey_hash-bound}
use pylibssh.Dir.{list_files}
use pylibssh.Dir.Lookup.{get_item, key_count, latest, list_files-latest}
use pylibssh.Examples.{answer, env, env_with, no_attrs, a_file, start}
use pylibssh.Examples.Sessions.{a_session}
use pylibssh.Examples.Tables.{one_entry}

-- Each read fills the buffer.
abbrev full_answers : List Event → Call → Reply
full_answers log (channel_read p stream n) = record (answer n 1) { buffer = 1 ∷ 2 ∷ 3 ∷ [] }
full_answers log (sftp_read p n) = record (answer n 1) { buffer = 1 ∷ 2 ∷ 3 ∷ [] }
full_answers log c = answer (pos 0) 1

abbrev full_env : Env
full_env = env_with full_answers

full_env-Fits : Fits full_env
full_env-Fits = record {
  of_channel = λ log p stream n. omega arith;
  of_file = λ log p n. omega arith;
}

read-bound_example :
    ((self : Channel) (h : Host)
      → length (data_of (Streams.read self (some (some (pos 2))) full_env h).0) ≤ 2)
    × ((self : Channel) (stream : ℤ) (h : Host)
        → length (data_of (Streams.read_ex self (some (some (pos 2), some stream)) full_env h).0)
          ≤ 2)
    × ((self : Handle) (h : Host)
        → length (data_of (File.read self (some (some (pos 2))) full_env h).0) ≤ 2)
read-bound_example = read-bound full_env 2 full_env-Fits

hostkey_hash-bound_example :
    (suc (digest_len (pos 2)) ≤ 21)
    × (length (data_of (hostkey_hash a_session (some (some (pos 2))) env start).0)
        ≤ digest_len (pos 2))
hostkey_hash-bound_example = hostkey_hash-bound env a_session start (pos 2)

list_files-latest_example :
    (dict : List (Bytes × StatDict)) × ((list_files 2 a_file env start).0 ≡ some (listing dict))
    × ((name : Bytes) → get_item name dict ≡ latest name (((b'a' ∷ []), no_attrs) ∷ []))
    × ((name : Bytes) → key_count name dict ≤ 1)
list_files-latest_example =
    list_files-latest env a_file start 2 (((b'a' ∷ []), no_attrs) ∷ []) refl one_entry (omega arith)
