-- ===== src/Report/Honest.antt =====
-- The protocol between a method and the interpreter: `NULL` is returned exactly when an exception is
-- set. One lemma for each way in which the methods are put together.
use pylibssh.Prelude.{
  ℤ, ◌≡◌, refl, ◌∙◌, String, Bool, true, false, Option, none, some, is_some, if◌then◌else◌,
}
use pylibssh.Host.{Env, Host, Io, pure, set_error, ◌>>=◌, ◌>>◌, invoke, fail_with, parsed}
use pylibssh.Host.Types.{Ptr, Exception, Value, is_null}
use pylibssh.Host.Calls.{Call}
use pylibssh.Errno.{errno_to_exception}
use pylibssh.Report.{
  Report, plain, with_message, with_code, with_both, from_sftp, raise, Cases, switch, raise_case,
  report_code, report_null, unless_failed, guarded,
}

-- From a state with no exception, `NULL` comes with an exception and any other value with none.
pub record IsHonest (env : Env) (m : Io Value) : Type 0 where
  pub honest : (h : Host) → h.error ≡ none → is_null (m env h).0 ≡ is_some (m env h).1.error

-- A step that leaves the exception as it is.
pub record IsSilent {A : Type 0} (env : Env) (m : Io A) : Type 0 where
  pub silent : (h : Host) → (m env h).1.error ≡ h.error

module _ (env : Env) where
  pub invoke-IsSilent : (c : Call) → IsSilent env (invoke c)
  unfolding invoke
  invoke-IsSilent c = record { silent = λ h. refl }

  pub pure-IsSilent : {A : Type 0} (a : A) → IsSilent env (pure a)
  unfolding pure
  pure-IsSilent a = record { silent = λ h. refl }

  pub if-IsSilent :
      {A : Type 0} (b : Bool) (m n : Io A)
      → IsSilent env m
      → IsSilent env n
      → IsSilent env (if b then m else n)
  if-IsSilent true m n p q = p
  if-IsSilent false m n p q = q

  pub >>=-IsSilent :
      {A B : Type 0} (m : Io A) (k : A → Io B)
      → IsSilent env m
      → ((a : A) → IsSilent env (k a))
      → IsSilent env (m >>= k)
  unfolding ◌>>=◌
  >>=-IsSilent m k p q = record { silent = λ h. (q _).silent _ ∙ p.silent h }

  pub >>=-IsHonest :
      {A : Type 0} (m : Io A) (k : A → Io Value)
      → IsSilent env m
      → ((a : A) → IsHonest env (k a))
      → IsHonest env (m >>= k)
  unfolding ◌>>=◌
  >>=-IsHonest m k p q = record {
    honest = λ h clean. (q (m env h).0).honest (m env h).1 (p.silent h ∙ clean);
  }

  pub >>-IsHonest :
      {A : Type 0} (m : Io A) (k : Io Value)
      → IsSilent env m
      → IsHonest env k
      → IsHonest env (m >> k)
  unfolding ◌>>◌
  >>-IsHonest m k p q = record { honest = λ h clean. q.honest (m env h).1 (p.silent h ∙ clean) }

  pub fail_with-IsHonest : (e : Exception) → IsHonest env (fail_with e)
  unfolding fail_with set_error pure ◌>>◌
  fail_with-IsHonest e = record { honest = λ h clean. refl }

  pub pure-IsHonest : (v : Value) → is_null v ≡ false → IsHonest env (pure v)
  unfolding pure
  pure-IsHonest v ok = record { honest = λ h clean. rw (ok, clean) refl }

  pub raise-IsHonest : (r : Report) (rc : ℤ) (message : String) → IsHonest env (raise r rc message)
  unfolding raise
  raise-IsHonest (plain t) rc message = fail_with-IsHonest _
  raise-IsHonest (with_message t) rc message = fail_with-IsHonest _
  raise-IsHonest (with_code t) rc message = fail_with-IsHonest _
  raise-IsHonest (with_both t) rc message = fail_with-IsHonest _
  raise-IsHonest (from_sftp p) rc message =
      >>=-IsHonest _ _ (invoke-IsSilent _) λ r. fail_with-IsHonest (errno_to_exception r.rc)

  raise_case-IsHonest :
      (rc : ℤ) (cases : Cases) (other : Report) (message : String)
      → IsHonest env (raise_case rc cases other message)
  unfolding raise_case
  raise_case-IsHonest rc cases other message = record {
    honest = (raise-IsHonest (switch env rc cases other) rc message).honest;
  }

  -- Both blocks always raise.
  pub report_code-IsHonest :
      (p : Ptr) (rc : ℤ) (cases : Cases) (other : Report)
      → IsHonest env (report_code p rc cases other)
  unfolding report_code
  report_code-IsHonest p rc cases other =
      >>=-IsHonest _ _ (invoke-IsSilent _) λ r. raise_case-IsHonest rc cases other _

  pub report_null-IsHonest :
      (p : Ptr) (cases : Cases) (other : Report) → IsHonest env (report_null p cases other)
  unfolding report_null
  report_null-IsHonest p cases other =
      >>=-IsHonest _ _ (invoke-IsSilent _) λ r. raise_case-IsHonest r.rc cases other r.text

  pub if-IsHonest :
      (b : Bool) (m n : Io Value)
      → IsHonest env m
      → IsHonest env n
      → IsHonest env (if b then m else n)
  if-IsHonest true m n p q = p
  if-IsHonest false m n p q = q

  pub guarded-IsHonest :
      (p : Ptr) (text : String) (m : Io Value) → IsHonest env m → IsHonest env (guarded p text m)
  unfolding guarded
  guarded-IsHonest p text m q = if-IsHonest _ _ _ (fail_with-IsHonest _) q

  pub parsed-IsHonest :
      {A : Type 0} (a : Option A) (k : A → Io Value)
      → ((x : A) → IsHonest env (k x))
      → IsHonest env (parsed a k)
  unfolding parsed
  parsed-IsHonest none k next = fail_with-IsHonest _
  parsed-IsHonest (some a) k next = next a

  pub unless_failed-IsHonest :
      (failed : Bool) (p : Ptr) (rc : ℤ) (cases : Cases) (other : Report) (v : Value)
      → is_null v ≡ false
      → IsHonest env (unless_failed failed p rc cases other v)
  unfolding unless_failed
  unless_failed-IsHonest failed p rc cases other v ok =
      if-IsHonest _ _ _ (report_code-IsHonest p rc cases other) (pure-IsHonest v ok)

pub ruleset honest_rules = (
  fail_with-IsHonest, pure-IsHonest, >>=-IsHonest, >>-IsHonest, invoke-IsSilent, pure-IsSilent,
  if-IsSilent, >>=-IsSilent, report_code-IsHonest, report_null-IsHonest, if-IsHonest,
  guarded-IsHonest, parsed-IsHonest, unless_failed-IsHonest,
)
