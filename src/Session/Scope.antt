-- ===== src/Session/Scope.antt =====
-- Which calls the methods of a session object make, and what they return.
use pylibssh.Prelude.{◌≡◌, refl, none, is_some, false, List, [], ◌∷◌}
use pylibssh.Host.{Env, Host}
use pylibssh.Host.Types.{is_null_ptr, is_null, Algorithm}
use pylibssh.Host.Calls
use pylibssh.Host.Calls.{target}
use pylibssh.Report.Uses.{Uses, works, >>=-Uses, invoke-Uses, pure-Uses, uses_rules}
use pylibssh.Report.Honest.{
  IsHonest, IsSilent, >>=-IsSilent, invoke-IsSilent, pure-IsSilent, honest_rules,
}
use pylibssh.Handles.{Session}
use pylibssh.Session.Table.{Method, run_session}
use pylibssh.Session.Auth.{authenticated, list, password, publickey_fromfile, hostbased_fromfile}
use pylibssh.Session.Keyboard.{keyboardinteractive}
use pylibssh.Session.Setup.{
  set_banner, hostkey_hash, query, session_methods, method_pref, set_blocking, last_error,
  set_trace,
}

module _ (env : Env) (self : Session) where
  query-Uses :
      (algorithms : List Algorithm)
      → is_null_ptr self.session ≡ false
      → Uses self.session self.session env (query self algorithms)
  unfolding query target
  query-Uses [] live = search uses_rules depth 18
  query-Uses (a ∷ rest) live =
      let own = works live refl refl in
      >>=-Uses env _ _ _ _ (invoke-Uses env _ _ (Calls.session_methods self.session a) own) λ r.
        >>=-Uses env _ _ _ _ (query-Uses rest live) λ found. pure-Uses env _ _ ((a, r.text) ∷ found)

  query-IsSilent : (algorithms : List Algorithm) → IsSilent env (query self algorithms)
  unfolding query
  query-IsSilent [] = search honest_rules depth 18
  query-IsSilent (a ∷ rest) = >>=-IsSilent env _ _ (invoke-IsSilent env _) λ r.
      >>=-IsSilent env _ _ (query-IsSilent rest) λ found. pure-IsSilent env ((a, r.text) ∷ found)

-- Whatever libssh2 answers, such a method of a session object calls libssh2 only on the object's
-- session, as long as that is not `NULL`. None of its calls takes a channel, a listener, an SFTP
-- session or a handle from libssh2 or gives one back.
pub run_session-Uses :
    (env : Env) (self : Session) (m : Method)
    → is_null_ptr self.session ≡ false
    → Uses self.session self.session env (run_session m self)
unfolding run_session target keyboardinteractive authenticated list password publickey_fromfile
    hostbased_fromfile set_banner hostkey_hash session_methods method_pref set_blocking last_error
    set_trace
run_session-Uses env self Method.session_methods live = search (uses_rules, query-Uses) depth 18
run_session-Uses env self m live = search uses_rules depth 18

run_session-IsHonest : (env : Env) (self : Session) (m : Method) → IsHonest env (run_session m self)
unfolding run_session keyboardinteractive authenticated list password publickey_fromfile
    hostbased_fromfile set_banner hostkey_hash session_methods method_pref set_blocking last_error
    set_trace
run_session-IsHonest env self Method.session_methods =
    search (honest_rules, query-IsSilent) depth 18
run_session-IsHonest env self m = search honest_rules depth 18

-- Every such method, called while no exception is set, returns `NULL` exactly if it has set an
-- exception when it returns.
pub run_session-is_null :
    (env : Env) (self : Session) (m : Method) (h : Host)
    → h.error ≡ none
    → let r = run_session m self env h in is_null r.0 ≡ is_some r.1.error
run_session-is_null env self m h clean = (run_session-IsHonest env self m).honest h clean
