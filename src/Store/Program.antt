-- ===== src/Store/Program.antt =====
-- A Python program that works with the channels of one session: which methods of src/session.c and
-- src/channel.c it calls, in any order, and how the references that it has to channel objects change.
pub mod Counts
pub mod Gains
pub mod Losses
pub mod Shuts
pub mod Ledger
pub mod Balances
pub mod Incomes
pub mod Emptied
pub mod Reached
use pylibssh.Prelude.{
  ℕ, zero, suc, ℤ, String, Option, none, some, ◌<◌, ◌-◌, ◌==◌, ◌≡◌, if◌then◌else◌,
}
use pylibssh.Host.{Env}
use pylibssh.Host.Types.{ObjId, Value, object, py_none}
use pylibssh.Channel.Table.{Method, run_channel}
use pylibssh.Store.Run.{
  World, ok, Cmd, pure, ◌>>=◌, ◌>>◌, lift, load, retain, release, channel_slot,
}
use pylibssh.Store.Objects.{dealloc_channel}
use pylibssh.Store.Sessions.{close, channel_close}
use pylibssh.Store.Opening
use pylibssh.Store.Opening.{open_session}

-- `copy_ref` and `drop_ref` are an assignment and the end of a variable.
pub data Action : Type 0 where
  opens shuts : Action
  sends : Option (String × ℤ × ℕ × ℤ × ℤ) → Action
  closes copies drops : ObjId → Action
  calls : Method → ObjId → Action

-- How many references the program has to each channel object.
abbrev pub Held : Type 0
Held = ObjId → ℕ

unfoldable pub perform : ObjId → Action → Cmd Value
perform id opens = open_session id
perform id shuts = close id (some none)
perform id (sends args) = Opening.send id args
perform id (closes c) = channel_close id (some c)
perform id (copies c) = retain channel_slot c >> pure py_none
perform id (drops c) = release channel_slot c (dealloc_channel c) >> pure py_none
perform id (calls m c) = do self ← load channel_slot c; lift (run_channel m self)

abbrev pub with_ref : ObjId → Held → Held
with_ref c held x = if x == c then suc (held x) else held x

abbrev pub without_ref : ObjId → Held → Held
without_ref c held x = if x == c then held x - 1 else held x

-- A method that returns an object gives the program a reference to it.
abbrev pub gain : Value → Held → Held
gain (object c) held = with_ref c held
gain v held = held

abbrev pub held_after : Action → Value → Held → Held
held_after opens v held = gain v held
held_after (sends args) v held = gain v held
held_after (copies c) v held = with_ref c held
held_after (drops c) v held = without_ref c held
held_after a v held = held

-- A program uses an object only while it has a reference to it.
abbrev pub Allowed : Action → Held → Type 0
Allowed opens held = Unit {0}
Allowed shuts held = Unit {0}
Allowed (sends args) held = Unit {0}
Allowed (closes c) held = 0 < held c
Allowed (copies c) held = 0 < held c
Allowed (drops c) held = 0 < held c
Allowed (calls m c) held = 0 < held c

pub record Program : Type 0 where
  pub held : Held
  pub world : World

-- The states that a program can reach.
module _ (env : Env) (id : ObjId) where
  pub data Reaches (s : Program) : Program → Type 0 where
    done : Reaches s s
    step :
        {t : Program} {v : Value} {w : World} (a : Action)
        → Reaches s t
        → Allowed a t.held
        → perform id a env t.world ≡ ok v w
        → Reaches s (record { held = held_after a v t.held; world = w })
