-- ===== src/Examples/Callbacks.antt =====
-- The theorems on callbacks, hashes and the module at concrete inputs.
use pylibssh.Prelude.{
  ℕ, ◌==◌, pos, ◌||◌, ◌≡◌, ◌<◌, refl, true, false, none, some, [], if◌then◌else◌,
}
use pylibssh.Host.Types.{Ptr}
use pylibssh.Handles.{Channel, Listener, Sftp, Handle}
use pylibssh.Session.X11.{Callee}
use pylibssh.Session.Keyboard.{Statics}
use pylibssh.Session.Callback.{Callback}
use pylibssh.Identity.{minus_one, channel_hash, listener_hash, sftp_hash, handle_hash}
use pylibssh.Identity.Protocol.{hash_error}
use pylibssh.Init.{Api, Answers, Module, TypeName, api_pointers, init_module, new_num, type_name}
use pylibssh.Init.Registered.{has, init_module-types, is_listener}

-- Before the first call.
abbrev no_statics : Statics
no_statics = record { owner = 0; interactive_response = none; interactive_response_len = pos 0 }

abbrev no_callback : Callback
no_callback = record { func = none; taken = [] }

abbrev some_hash : Ptr → ℕ
some_hash p = if p == 3 then minus_one else p

hash_error_example :
    let fails = λ (p : Ptr). some_hash p == minus_one in
    ((c : Channel) → (channel_hash some_hash c == minus_one) ≡ (fails c.channel || fails c.session))
    × ((l : Listener)
        → (listener_hash some_hash l == minus_one) ≡ (fails l.listener || fails l.session))
    × ((s : Sftp) → (sftp_hash some_hash s == minus_one) ≡ (fails s.sftp || fails s.session))
    × ((h : Handle)
        → (handle_hash some_hash h == minus_one)
          ≡ (fails h.sftp || (fails h.session || fails h.handle)))
hash_error_example = hash_error some_hash

abbrev all_well : Answers
all_well = record { makes_module = true; makes_api = true; makes_error = true; adds_error = true }

init_module-types_example :
    (m : Module) × (api : Api) × (init_module all_well ≡ some m)
    × (m.api ≡ some api)
    × (new_num TypeName.channel < api_pointers)
    × (has (type_name TypeName.channel) m.names
        ≡ (if is_listener TypeName.channel then false else true))
    × (api (new_num TypeName.channel)
        ≡ (if is_listener TypeName.channel then none else some TypeName.channel))
init_module-types_example = init_module-types TypeName.channel all_well refl refl refl refl

-- Before the first call; `None` has many references.
abbrev before_call : Callee
before_call = record {
  pysession = 0;
  pychannel = 0;
  pyabstract = 100;
  arglist = 0;
  locked = false;
  error = none;
}
