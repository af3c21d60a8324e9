-- ===== src/Examples/Methods.antt =====
-- The theorems on the methods of channels, SFTP sessions and files, at concrete inputs.
use pylibssh.Prelude.{◌≡◌, refl, is_some, true, pos, none, some, []}
use pylibssh.Host.Types.{StatKey, st_mode, is_null, null, ssh_error}
use pylibssh.Report.Uses.{Uses}
use pylibssh.Handles.{file_closed_text}
use pylibssh.Channel.Table as ChannelTable
use pylibssh.Channel.Table.{run_channel}
use pylibssh.Channel.Protocol.{run_channel-is_null, read_without_memory, breaks_protocol}
use pylibssh.Sftp.Table as SftpTable
use pylibssh.Sftp.Table.{run_sftp}
use pylibssh.Sftp.Scope.{run_sftp-is_null, IsLong}
use pylibssh.Sftp.Attrs.{AttrDict, long}
use pylibssh.File.Table as FileTable
use pylibssh.File.Table.{run_file}
use pylibssh.Methods.{on_channel, on_file, run_on-Uses, run_on-closed}
use pylibssh.Examples.{no_memory, env_with, env, start, a_channel, a_sftp, closed_file}

run_channel-is_null_example :
    let r = run_channel (ChannelTable.Method.read (some none)) a_channel env start in
    is_null r.0 ≡ is_some r.1.error
run_channel-is_null_example =
    run_channel-is_null env a_channel (ChannelTable.Method.read (some none)) start (λ log n. refl)
      refl

read_without_memory_example :
    let r =
      run_channel (ChannelTable.Method.read (some none)) a_channel (env_with no_memory) start in
    breaks_protocol r.0 r.1 ≡ true
read_without_memory_example = read_without_memory (env_with no_memory) a_channel none start refl

-- `chmod 0600`
abbrev mode_only : AttrDict
mode_only st_mode = some (long (pos 384))
mode_only key = none

mode_only-IsLong : (key : StatKey) → IsLong (mode_only key)
mode_only-IsLong st_mode = tt
mode_only-IsLong key = tt

run_sftp-is_null_example :
    let r = run_sftp (SftpTable.Method.set_stat (some ("tmp", mode_only))) a_sftp env start in
    is_null r.0 ≡ is_some r.1.error
run_sftp-is_null_example =
    run_sftp-is_null env a_sftp (SftpTable.Method.set_stat (some ("tmp", mode_only))) start
      mode_only-IsLong refl

run_on-Uses_example : Uses 7 8 env (run_channel ChannelTable.Method.flush a_channel)
run_on-Uses_example = run_on-Uses env (on_channel a_channel ChannelTable.Method.flush)

run_on-closed_example :
    run_file (FileTable.Method.seek (some 3)) closed_file env start
    ≡ (null, record { log = []; error = some (ssh_error file_closed_text []) })
run_on-closed_example =
    run_on-closed env (on_file closed_file (FileTable.Method.seek (some 3))) start refl
