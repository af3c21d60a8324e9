-- ===== src/Channel/Table.antt =====
-- `PYLIBSSH2_Channel_methods[]` and `PYLIBSSH2_Channel_getattr` of src/channel.c: the methods that
-- Python can call on a channel, each with its arguments, and the function that each name runs.
use pylibssh.Prelude.{ℤ, String, Option}
use pylibssh.Host.{Io}
use pylibssh.Host.Types.{Bytes, Value}
use pylibssh.Handles.{Channel}
use pylibssh.Channel.Requests
use pylibssh.Channel.Requests.{PtyArgs}
use pylibssh.Channel.Streams
use pylibssh.Channel.Status

pub data Method : Type 0 where
  pty : Option PtyArgs → Method
  pty_resize : Option (ℤ × ℤ × Option ℤ × Option ℤ) → Method
  shell : Method
  execute : Option String → Method
  setenv : Option (String × String) → Method
  setblocking : Option ℤ → Method
  read_ex : Option (Option ℤ × Option ℤ) → Method
  read : Option (Option ℤ) → Method
  write : Option Bytes → Method
  flush eof exit_status send_eof wait_eof wait_closed window_read window_write : Method
  poll_read : Option (Option ℤ) → Method
  x11_req : Option (Option ℤ × Option String × Option String × Option ℤ) → Method
  receive_window_adjust : Option (ℤ × Option ℤ) → Method

unfoldable pub run_channel : Method → Channel → Io Value
run_channel (pty args) self = Requests.pty self args
run_channel (pty_resize args) self = Requests.pty_resize self args
run_channel shell self = Requests.shell self
run_channel (execute args) self = Requests.execute self args
run_channel (setenv args) self = Requests.setenv self args
run_channel (setblocking args) self = Requests.setblocking self args
run_channel (read_ex args) self = Streams.read_ex self args
run_channel (read args) self = Streams.read self args
run_channel (write args) self = Streams.write self args
run_channel flush self = Streams.flush self
run_channel eof self = Status.eof self
run_channel exit_status self = Status.exit_status self
run_channel send_eof self = Streams.send_eof self
run_channel wait_eof self = Streams.wait_eof self
run_channel wait_closed self = Streams.wait_closed self
run_channel window_read self = Status.window_read self
run_channel window_write self = Status.window_write self
run_channel (poll_read args) self = Status.poll_read self args
run_channel (x11_req args) self = Requests.x11_req self args
run_channel (receive_window_adjust args) self = Requests.receive_window_adjust self args
