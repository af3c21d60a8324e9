-- ===== src/Store/Program/Reached.antt =====
-- What holds in every state that a program with the channels of a session can reach.
use pylibssh.Prelude.{subst, none}
use pylibssh.Host.{Env}
use pylibssh.Host.Types.{ObjId}
use pylibssh.Store.Run.{World, ok, pure}
use pylibssh.Store.Returns.{Returns, returns, chain}
use pylibssh.Store.Program.{
  Action, opens, shuts, sends, closes, copies, drops, calls, perform, held_after, Held, Allowed,
  Program, Reaches, done, step,
}
use pylibssh.Store.Program.Counts.{Counts}
use pylibssh.Store.Program.Gains.{open_session-Counts, send-Counts}
use pylibssh.Store.Program.Shuts.{shuts-Counts}
use pylibssh.Store.Program.Ledger.{Balance}
use pylibssh.Store.Program.Balances.{copies-Balance, calls-Balance, drops-Balance, closes-Balance}
use pylibssh.Store.Program.Incomes.{open_session-Balance, send-Balance}
use pylibssh.Store.Program.Emptied.{shuts-Balance}
use pylibssh.Store.Program.Losses.{copies-Counts, drops-Counts, calls-Counts, closes-Counts}

perform-Counts :
    (env : Env) (id : ObjId) (held : Held) (w : World) (a : Action)
    → Counts id held w
    → Allowed a held
    → Returns (λ v w'. Counts id (held_after a v held) w') (perform id a env w)
unfolding perform pure
perform-Counts env id held w opens k may = open_session-Counts env id held w k
perform-Counts env id held w shuts k may = shuts-Counts env id held w none k
perform-Counts env id held w (sends args) k may = send-Counts env id held w args k
perform-Counts env id held w (closes c) k may = closes-Counts env id c held w k may
perform-Counts env id held w (copies c) k may =
    chain env _ _ w (copies-Counts env id c held w k may) λ _ w' k'. returns k'
perform-Counts env id held w (drops c) k may =
    chain env _ _ w (drops-Counts env id c held w k may) λ _ w' k'. returns k'
perform-Counts env id held w (calls m c) k may = calls-Counts env id c held w k may m

returned : {A : Type 0} {P : A → World → Type 0} {a : A} {w : World} → Returns P (ok a w) → P a w
returned (returns p) = p

module _ (env : Env) (id : ObjId) (s : Program) (k : Counts id s.held s.world) where
  Reaches-Counts : {t : Program} → Reaches env id s t → Counts id t.held t.world
  Reaches-Counts done = k
  Reaches-Counts (step {t} {v} {w} a before may runs) = returned (
      subst (Returns (λ v' w'. Counts id (held_after a v' t.held) w')) runs
        (perform-Counts env id t.held t.world a (Reaches-Counts before) may))

perform-Balance :
    (env : Env) (id : ObjId) (held : Held) (w : World) (a : Action)
    → Counts id held w
    → Balance w
    → Allowed a held
    → Returns (λ v w'. Balance w') (perform id a env w)
unfolding perform pure
perform-Balance env id held w opens k b may = open_session-Balance env id w k.session k.is_there b
perform-Balance env id held w shuts k b may = shuts-Balance env id held w none k b
perform-Balance env id held w (sends args) k b may =
    send-Balance env id w k.session args k.is_there b
perform-Balance env id held w (closes c) k b may = closes-Balance env id c held w k may b
perform-Balance env id held w (copies c) k b may =
    chain env _ _ w (copies-Balance env id c held w k may b) λ _ w' b'. returns b'
perform-Balance env id held w (drops c) k b may =
    chain env _ _ w (drops-Balance env id c held w k may b) λ _ w' b'. returns b'
perform-Balance env id held w (calls m c) k b may = calls-Balance env id c held w k may b m

-- A program begins with a session object that keeps no SFTP objects and no listeners, whose set has
-- no channel twice and only open ones; each channel object in memory has as many references as the
-- program and the set have to it, and at least one; the numbers of new objects are free; and
-- everything that libssh2 had given was lost, given back to it, or the channel of a channel object
-- in memory, counted once for each time it was given. Then the last is so again in every state that
-- the program reaches by `open_session`, `scp_send`, `channel_close` and `close` of the session, by
-- the methods of channel objects, and by copying and dropping its references: no channel is given
-- back more often than libssh2 gave it, and none that an object in memory still has was given back.
pub Reaches-Balance :
    (env : Env) (id : ObjId) (s t : Program)
    → Counts id s.held s.world
    → Balance s.world
    → Reaches env id s t
    → Balance t.world
Reaches-Balance env id s t k b done = b
Reaches-Balance env id s t k b (step {t = u} {v} {w} a before may runs) = returned (
    subst (Returns λ v' w'. Balance w') runs (
      perform-Balance env id u.held u.world a (Reaches-Counts env id s k before)
        (Reaches-Balance env id s u k b before) may))
