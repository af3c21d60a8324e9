-- ===== src/Report/Uses.antt =====
-- Which functions of libssh2 a method can call, and on which handles. One lemma for each way in
-- which the methods are put together.
use mathlib.Core.List.{append_assoc}
use pylibssh.Prelude.{
  ℤ, ◌≡◌, refl, sym, ap, ◌∙◌, String, Bool, true, false, Option, none, some, List, [], ◌∷◌, ◌++◌,
  All, All-append, if◌then◌else◌,
}
use pylibssh.Host.{Env, Host, Io, pure, set_error, ◌>>=◌, ◌>>◌, invoke, fail_with, parsed}
use pylibssh.Host.Types.{Ptr, is_null_ptr, Exception, Value}
use pylibssh.Host.Calls.{
  Call, Event, session_last_error, sftp_last_error, host, on, target, hands_over,
}
use pylibssh.Errno.{errno_to_exception}
use pylibssh.Report.{
  Report, plain, with_message, with_code, with_both, from_sftp, raise, Cases, switch, raise_case,
  report_code, report_null, unless_failed, guarded,
}

-- The calls that a method of an object with a session and one more handle may make: those of the
-- allocators, the query for the last error of the session, and those on the handle, which is then
-- not `NULL`. None of them opens a handle or gives one back.
pub data Own (session handle : Ptr) (c : Call) : Type 0 where
  allocates : target c ≡ host → hands_over c ≡ false → Own session handle c
  asks : c ≡ session_last_error session → Own session handle c
  works :
      is_null_ptr handle ≡ false
      → target c ≡ on handle
      → hands_over c ≡ false
      → Own session handle c

-- A run adds calls to the log, and each of them is one of those.
pub record Uses {A : Type 0} (session handle : Ptr) (env : Env) (m : Io A) : Type 0 where
  pub uses :
      (h : Host)
      → (new : List Event) × ((m env h).1.log ≡ new ++ h.log)
        × All (λ e. Own session handle e.call) new

-- A case asks for the status of an SFTP session only if that is the handle.
abbrev pub CaseUses : Ptr → Ptr → Report → Type 0
CaseUses session handle (from_sftp p) = Own session handle (sftp_last_error p)
CaseUses session handle r = Unit {0}

abbrev pub CasesUse : Ptr → Ptr → Cases → Type 0
CasesUse session handle [] = Unit {0}
CasesUse session handle ((code, report) ∷ cases) =
    CaseUses session handle report × CasesUse session handle cases

module _ (env : Env) (session handle : Ptr) where
  pub invoke-Uses : (c : Call) → Own session handle c → Uses session handle env (invoke c)
  unfolding invoke
  invoke-Uses c own = record { uses = λ h. (_ ∷ [], refl, (own, tt)) }

  pub pure-Uses : {A : Type 0} (a : A) → Uses session handle env (pure a)
  unfolding pure
  pure-Uses a = record { uses = λ h. ([], refl, tt) }

  pub >>=-Uses :
      {A B : Type 0} (m : Io A) (k : A → Io B)
      → Uses session handle env m
      → ((a : A) → Uses session handle env (k a))
      → Uses session handle env (m >>= k)
  unfolding ◌>>=◌
  >>=-Uses m k p q = record {
    uses = λ h.
        let (first, grows, own) = p.uses h in
        let (second, grows', own') = (q (m env h).0).uses (m env h).1 in
        (
          second ++ first,
          grows' ∙ ap (◌++◌ second) grows ∙ sym (append_assoc second first h.log),
          All-append _ second first own' own,
        );
  }

  pub >>-Uses :
      {A B : Type 0} (m : Io A) (k : Io B)
      → Uses session handle env m
      → Uses session handle env k
      → Uses session handle env (m >> k)
  unfolding ◌>>◌ ◌>>=◌
  >>-Uses m k p q = record { uses = (>>=-Uses m (λ _. k) p (λ _. q)).uses }

  pub if-Uses :
      {A : Type 0} (b : Bool) (m n : Io A)
      → Uses session handle env m
      → Uses session handle env n
      → Uses session handle env (if b then m else n)
  if-Uses true m n p q = p
  if-Uses false m n p q = q

  pub set_error-Uses : (e : Exception) → Uses session handle env (set_error e)
  unfolding set_error
  set_error-Uses e = record { uses = λ h. ([], refl, tt) }

  pub fail_with-Uses : (e : Exception) → Uses session handle env (fail_with e)
  unfolding fail_with set_error pure ◌>>◌
  fail_with-Uses e = record { uses = λ h. ([], refl, tt) }

  pub raise-Uses :
      (r : Report) (rc : ℤ) (message : String)
      → CaseUses session handle r
      → Uses session handle env (raise r rc message)
  unfolding raise
  raise-Uses (plain t) rc message own = fail_with-Uses _
  raise-Uses (with_message t) rc message own = fail_with-Uses _
  raise-Uses (with_code t) rc message own = fail_with-Uses _
  raise-Uses (with_both t) rc message own = fail_with-Uses _
  raise-Uses (from_sftp p) rc message own =
      >>=-Uses _ _ (invoke-Uses _ own) λ r. fail_with-Uses (errno_to_exception r.rc)

  switch-Uses :
      (rc : ℤ) (cases : Cases) (other : Report)
      → CasesUse session handle cases
      → CaseUses session handle other
      → CaseUses session handle (switch env rc cases other)
  unfolding switch
  switch-Uses rc [] other own own' = own'
  switch-Uses rc ((code, report) ∷ cases) other own own' =
      pick-Uses _ report _ own.0 (switch-Uses rc cases other own.1 own')
    where
      pick-Uses :
          (b : Bool) (r s : Report)
          → CaseUses session handle r
          → CaseUses session handle s
          → CaseUses session handle (if b then r else s)
      pick-Uses true r s p q = p
      pick-Uses false r s p q = q

  raise_case-Uses :
      (rc : ℤ) (cases : Cases) (other : Report) (message : String)
      → CasesUse session handle cases
      → CaseUses session handle other
      → Uses session handle env (raise_case rc cases other message)
  unfolding raise_case
  raise_case-Uses rc cases other message own own' =
      let chosen = switch-Uses rc cases other own own' in
      record { uses = (raise-Uses (switch env rc cases other) rc message chosen).uses }

  pub report_code-Uses :
      (rc : ℤ) (cases : Cases) (other : Report)
      → CasesUse session handle cases
      → CaseUses session handle other
      → Uses session handle env (report_code session rc cases other)
  unfolding report_code
  report_code-Uses rc cases other own own' =
      >>=-Uses _ _ (invoke-Uses _ (asks refl)) λ r. raise_case-Uses rc cases other _ own own'

  pub report_null-Uses :
      (cases : Cases) (other : Report)
      → CasesUse session handle cases
      → CaseUses session handle other
      → Uses session handle env (report_null session cases other)
  unfolding report_null
  report_null-Uses cases other own own' =
      >>=-Uses _ _ (invoke-Uses _ (asks refl)) λ r. raise_case-Uses r.rc cases other r.text own own'

  pub unless_failed-Uses :
      (failed : Bool) (rc : ℤ) (cases : Cases) (other : Report) (v : Value)
      → CasesUse session handle cases
      → CaseUses session handle other
      → Uses session handle env (unless_failed failed session rc cases other v)
  unfolding unless_failed
  unless_failed-Uses failed rc cases other v own own' =
      if-Uses _ _ _ (report_code-Uses rc cases other own own') (pure-Uses v)

  pub guarded-Uses :
      (text : String) (m : Io Value)
      → (is_null_ptr handle ≡ false → Uses session handle env m)
      → Uses session handle env (guarded handle text m)
  unfolding guarded
  guarded-Uses text m q = split-Uses (is_null_ptr handle) refl
    where
      split-Uses :
          (b : Bool)
          → is_null_ptr handle ≡ b
          → Uses session handle env (if b then fail_with (Exception.ssh_error text []) else m)
      split-Uses true e = fail_with-Uses _
      split-Uses false e = q e

  pub parsed-Uses :
      {A : Type 0} (a : Option A) (k : A → Io Value)
      → ((x : A) → Uses session handle env (k x))
      → Uses session handle env (parsed a k)
  unfolding parsed
  parsed-Uses none k next = fail_with-Uses _
  parsed-Uses (some a) k next = next a

pub ruleset uses_rules = (
  pure-Uses, >>=-Uses, >>-Uses, invoke-Uses, if-Uses, set_error-Uses, fail_with-Uses,
  report_code-Uses, report_null-Uses, unless_failed-Uses, guarded-Uses, parsed-Uses, works,
  allocates, refl,
)
