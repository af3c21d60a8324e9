-- ===== src/Session/Table.antt =====
-- The entries of `PYLIBSSH2_Session_methods[]` of src/session.c for the methods in `Auth`,
-- `Keyboard` and `Setup`.
use pylibssh.Prelude.{ℤ, String, Option}
use pylibssh.Host.{Io}
use pylibssh.Host.Types.{Value}
use pylibssh.Handles.{Session}
use pylibssh.Session.Auth
use pylibssh.Session.Keyboard
use pylibssh.Session.Setup

pub data Method : Type 0 where
  set_banner : String → Option (Option String) → Method
  userauth_authenticated : Method
  userauth_list : Option String → Method
  userauth_password : Option (String × String) → Method
  userauth_publickey_fromfile : Option (String × String × String × Option String) → Method
  userauth_hostbased_fromfile : Option (String × String × String × String × Option String) → Method
  userauth_keyboardinteractive : Option (String × String × ℤ) → Method
  hostkey_hash : Option (Option ℤ) → Method
  session_methods : Method
  session_method_pref : Option (ℤ × String) → Method
  set_blocking : Option (Option ℤ) → Method
  last_error : Method
  set_trace : Option ℤ → Method

unfoldable pub run_session : Method → Session → Io Value
run_session (set_banner banner args) self = Setup.set_banner banner self args
run_session userauth_authenticated self = Auth.authenticated self
run_session (userauth_list args) self = Auth.list self args
run_session (userauth_password args) self = Auth.password self args
run_session (userauth_publickey_fromfile args) self = Auth.publickey_fromfile self args
run_session (userauth_hostbased_fromfile args) self = Auth.hostbased_fromfile self args
run_session (userauth_keyboardinteractive args) self = Keyboard.keyboardinteractive self args
run_session (hostkey_hash args) self = Setup.hostkey_hash self args
run_session session_methods self = Setup.session_methods self
run_session (session_method_pref args) self = Setup.method_pref self args
run_session (set_blocking args) self = Setup.set_blocking self args
run_session last_error self = Setup.last_error self
run_session (set_trace args) self = Setup.set_trace self args
