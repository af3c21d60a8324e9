-- ===== src/Session/Identities.antt =====
-- What `userauth_agent` of src/session.c returns, given what the agent does.
use pylibssh.Prelude.{
  ℕ, zero, suc, ◌<◌, ℤ, pos, is_zero, String, ◌≡◌, refl, ap, ◌∙◌, is_some, Bool, true, false, ◌&&◌,
  ◌||◌, List, [], ◌∷◌, length, Option, none, some, Bool-cases, inl, inr, arith, if◌then◌else◌,
}
use pylibssh.Host.{Env, Host, pure, ◌>>=◌, ◌>>◌, invoke, set_error}
use pylibssh.Host.Types.{Ptr, null_ptr, is_null_ptr, Exception, null, py_none}
use pylibssh.Host.Calls.{
  Event, agent_init, agent_connect, agent_list_identities, agent_get_identity, agent_userauth,
}
use pylibssh.Handles.{Session}
use pylibssh.Session.Agent.{
  occurred, not_accepted, try_identity, agent_loop, with_identities, connected, after_connect,
  with_agent, userauth_agent,
}

-- After the identity `store` the agent hands out these identities, in this order, and then says that
-- there are no more and leaves the last one in place.
pub data Offers (env : Env) (agent : Ptr) : Ptr → List Ptr → Type 0 where
  last :
      {store : Ptr}
      → ((log : List Event) → (env.reply log (agent_get_identity agent store)).rc ≡ pos 1)
      → ((log : List Event) → (env.reply log (agent_get_identity agent store)).ptr ≡ store)
      → Offers env agent store []
  next :
      {store : Ptr} {rest : List Ptr} (x : Ptr)
      → ((log : List Event) → (env.reply log (agent_get_identity agent store)).rc ≡ pos 0)
      → ((log : List Event) → (env.reply log (agent_get_identity agent store)).ptr ≡ x)
      → Offers env agent x rest
      → Offers env agent store (x ∷ rest)

-- The server accepts these identities of the user, whenever it is asked.
pub record Decides (env : Env) (agent : Ptr) (username : String) (accepts : Ptr → Bool)
    : Type 0 where
  pub decides :
      (log : List Event) (x : Ptr)
      → is_zero (env.reply log (agent_userauth agent username x)).rc ≡ accepts x

-- There is an agent, it can be connected to, and it has a list of identities.
pub record Answers (env : Env) (session agent : Ptr) : Type 0 where
  pub starts : (log : List Event) → (env.reply log (agent_init session)).ptr ≡ agent
  pub is_there : is_null_ptr agent ≡ false
  pub connects : (log : List Event) → (env.reply log (agent_connect agent)).rc ≡ pos 0
  pub lists : (log : List Event) → (env.reply log (agent_list_identities agent)).rc ≡ pos 0

abbrev pub any : (Ptr → Bool) → List Ptr → Bool
any p [] = false
any p (x ∷ xs) = p x || any p xs

abbrev is_empty : List Ptr → Bool
is_empty [] = true
is_empty (x ∷ xs) = false

refused_after : (xs : List Ptr) (b : Bool) → b ≡ false → is_empty xs && b ≡ false
refused_after [] b refused = refused
refused_after (x ∷ xs) b refused = refl

-- The end of the method, from what the loop gives.
conclude :
    (ended : Bool) (error : Option Exception) (accepted : Bool)
    → ended ≡ true
    → error ≡ (if accepted then none else some not_accepted)
    → ((if ended then some (if is_some error then null else py_none) else none)
        ≡ some (if accepted then py_none else null))
      × (error ≡ (if accepted then none else some not_accepted))
conclude ended error true e e' = rw (e, e') (refl, refl)
conclude ended error false e e' = rw (e, e') (refl, refl)

module _ (env : Env) (agent : Ptr) (username : String) (accepts : Ptr → Bool)
    (d : Decides env agent username accepts) where
  agent_loop-any :
      (fuel : ℕ) (h : Host) (store : Ptr) (ids : List Ptr)
      → Offers env agent store ids
      → is_empty ids && accepts store ≡ false
      → length ids < fuel
      → let r = agent_loop fuel agent username store env h in
        (r.0 ≡ true) × (r.1.error ≡ (if any accepts ids then h.error else some not_accepted))
  unfolding agent_loop try_identity invoke set_error pure ◌>>=◌ ◌>>◌
  agent_loop-any zero h store ids o refused enough = absurd (omega arith)
  agent_loop-any (suc fuel) h store [] (last rc ptr) refused enough =
      simp (rc, ptr, d.decides, refused) (refl, refl)
  agent_loop-any (suc fuel) h store (x ∷ rest) (next _ rc ptr o) refused enough =
      elim (Bool-cases (accepts x)) [
        | inl accepted ↦ simp (rc, ptr, d.decides, accepted) (refl, refl)
        | inr rejected ↦
            simp (rc, ptr, d.decides, rejected)
              (agent_loop-any fuel _ x rest o (refused_after rest (accepts x) rejected)
                (omega arith))
      ]

  with_identities-any :
      (session : Ptr) (fuel : ℕ) (h : Host) (ids : List Ptr)
      → Answers env session agent
      → Offers env agent null_ptr ids
      → is_empty ids ≡ false
      → length ids < fuel
      → let r = with_identities fuel agent username env h in
        (r.0 ≡ true) × (r.1.error ≡ (if any accepts ids then h.error else some not_accepted))
  unfolding with_identities invoke ◌>>=◌
  with_identities-any session fuel h ids a o some_id enough =
      simp (a.lists) (agent_loop-any fuel _ null_ptr ids o (rw some_id refl) enough)

  after_connect-any :
      (session : Ptr) (fuel : ℕ) (h : Host) (ids : List Ptr) (rc : ℤ)
      → is_zero rc ≡ true
      → Answers env session agent
      → Offers env agent null_ptr ids
      → is_empty ids ≡ false
      → length ids < fuel
      → h.error ≡ none
      → let r = after_connect fuel agent username rc env h in
        (r.0 ≡ some (if any accepts ids then py_none else null))
        × (r.1.error ≡ (if any accepts ids then none else some not_accepted))
  unfolding after_connect connected occurred invoke pure ◌>>=◌ ◌>>◌
  after_connect-any session fuel h ids rc connects a o some_id enough clean =
      let (ended, error) = with_identities-any session fuel h ids a o some_id enough in
      rw connects (
        conclude _ _ (any accepts ids) ended
          (error ∙ ap (λ e. if any accepts ids then e else some not_accepted) clean))

-- `userauth_agent`, called while no exception is set, for an agent that can be connected to and hands
-- out one or more identities, of whatever number, of which the server accepts some or none: on fuel
-- of more than their number the loop ends. If the server accepts one of them, the method returns
-- `None` and sets no exception; if it accepts none, the method returns `NULL` and sets the exception
-- that says so.
pub userauth_agent-any :
    (env : Env) (self : Session) (username : String) (fuel : ℕ) (h : Host) (agent : Ptr)
    (accepts : Ptr → Bool) (first : Ptr) (rest : List Ptr)
    → Answers env self.session agent
    → Offers env agent null_ptr (first ∷ rest)
    → Decides env agent username accepts
    → length (first ∷ rest) < fuel
    → h.error ≡ none
    → let r = userauth_agent fuel self (some username) env h in
      (r.0 ≡ some (if any accepts (first ∷ rest) then py_none else null))
      × (r.1.error ≡ (if any accepts (first ∷ rest) then none else some not_accepted))
unfolding userauth_agent with_agent invoke ◌>>=◌
userauth_agent-any env self username fuel h agent accepts first rest a o d enough clean =
    simp (a.starts, a.is_there)
      (after_connect-any env agent username accepts d self.session fuel _ (first ∷ rest) _
        (rw (a.connects _) refl) a o refl enough clean)
