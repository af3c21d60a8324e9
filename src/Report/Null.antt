-- ===== src/Report/Null.antt =====
-- The error blocks return `NULL`.
use pylibssh.Prelude.{ℤ, String, ◌≡◌, refl}
use pylibssh.Host.{Env, Host, pure, set_error, ◌>>=◌, ◌>>◌, fail_with}
use pylibssh.Host.Types.{Ptr, null}
use pylibssh.Report.{
  Report, plain, with_message, with_code, with_both, from_sftp, raise, Cases, raise_case,
  report_code, report_null,
}

raise-null :
    (env : Env) (r : Report) (rc : ℤ) (message : String) (h : Host)
    → (raise r rc message env h).0 ≡ null
unfolding raise fail_with set_error pure ◌>>=◌ ◌>>◌
raise-null env (plain t) rc message h = refl
raise-null env (with_message t) rc message h = refl
raise-null env (with_code t) rc message h = refl
raise-null env (with_both t) rc message h = refl
raise-null env (from_sftp p) rc message h = refl

pub report_code-null :
    (env : Env) (p : Ptr) (rc : ℤ) (cases : Cases) (other : Report) (h : Host)
    → (report_code p rc cases other env h).0 ≡ null
unfolding report_code raise_case ◌>>=◌
report_code-null env p rc cases other h = raise-null env _ rc _ _

pub report_null-null :
    (env : Env) (p : Ptr) (cases : Cases) (other : Report) (h : Host)
    → (report_null p cases other env h).0 ≡ null
unfolding report_null raise_case ◌>>=◌
report_null-null env p cases other h = raise-null env _ _ _ _
