-- ===== src/Store/Client/Present.antt =====
-- Which objects are in memory in the states that a program with all objects of a session can get to.
use pylibssh.Prelude.{
  ℕ, zero, suc, ◌+◌, ◌≡◌, refl, ap, ◌∙◌, false, Option, none, some, List, is_some, ltb, ◌||◌, arith,
}
use pylibssh.Host.{Env}
use pylibssh.Host.Types.{ObjId, Value}
use pylibssh.Handles.{Session, Handle}
use pylibssh.Store.Run.{Counted}
use pylibssh.Store.Program.Counts.{count}
use pylibssh.Store.Files.Counts.{closed}
use pylibssh.Store.Client.{Sort, Request, Client, Arrives, refs_after}
use pylibssh.Store.Client.Tally.{Tallied}
use pylibssh.Store.Client.State.{Refs, with_lost, IsClosed, in_all_sets}
use pylibssh.Store.Client.Discarding.{StillSteady}
use pylibssh.Store.Client.Served.{Arrives-StillSteady}

-- How often a set of a session object has an object.
abbrev pub in_session : (Session → List ObjId) → ObjId → Option (Counted Session) → ℕ
in_session set x none = 0
in_session set x (some o) = count x (set o.body)

-- No request begins the end of an SFTP object without coming to it.
refs_after-ending :
    (q : Request) (v : Value) (refs : Refs) → (refs_after q v refs).ending ≡ refs.ending
refs_after-ending (Request.startup args) v refs = refl
refs_after-ending (Request.on_session m) v refs = refl
refs_after-ending Request.open_session v refs = refl
refs_after-ending Request.sftp_init v refs = refl
refs_after-ending (Request.scp_recv args) v refs = refl
refs_after-ending (Request.scp_send args) v refs = refl
refs_after-ending (Request.forward_listen args) v refs = refl
refs_after-ending (Request.close args) v refs = refl
refs_after-ending (Request.channel_close c) v refs = refl
refs_after-ending (Request.sftp_shutdown s) v refs = refl
refs_after-ending (Request.forward_cancel l) v refs = refl
refs_after-ending (Request.accept l) v refs = refl
refs_after-ending (Request.read_dir h) v refs = refl
refs_after-ending (Request.on_channel m c) v refs = refl
refs_after-ending (Request.on_sftp m s) v refs = refl
refs_after-ending (Request.on_file m h) v refs = refl
refs_after-ending (Request.open_dir args s) v refs = refl
refs_after-ending (Request.open_file args s) v refs = refl
refs_after-ending (Request.close_dir s h) v refs = refl
refs_after-ending (Request.close_file s h) v refs = refl
refs_after-ending (Request.copy Sort.a_channel x) v refs = refl
refs_after-ending (Request.copy Sort.a_listener x) v refs = refl
refs_after-ending (Request.copy Sort.an_sftp x) v refs = refl
refs_after-ending (Request.copy Sort.a_handle x) v refs = refl
refs_after-ending (Request.drop Sort.a_channel x) v refs = refl
refs_after-ending (Request.drop Sort.a_listener x) v refs = refl
refs_after-ending (Request.drop Sort.an_sftp x) v refs = refl
refs_after-ending (Request.drop Sort.a_handle x) v refs = refl

module _ (env : Env) (sid : ObjId) (s : Client) where
  Arrives-ending : {t : Client} → Arrives env sid s t → t.refs.ending ≡ s.refs.ending
  Arrives-ending Arrives.here = refl
  Arrives-ending (Arrives.serves {t} {v} {w} q before may runs) =
      refs_after-ending q v t.refs ∙ Arrives-ending before

-- An object of a kind that never stays without a reference.
pub present :
    {A : Type 0} (Stays : A → Type 0) (n : ℕ) (e : Option (Counted A))
    → ((b : A) → Stays b → ⊥)
    → Tallied Stays n e
    → is_some e ≡ ltb 0 n
present Stays n none never l = ground (arith, l)
present Stays zero (some k) never l = absurd (never k.body (l.1 refl))
present Stays (suc n) (some k) never l = ground arith

pub present_or_closed :
    (x n : ℕ) (e : Option (Counted Handle))
    → Tallied (IsClosed x) n e
    → is_some e ≡ (ltb 0 n || closed e)
present_or_closed x n none l = ground (arith, l)
present_or_closed x zero (some k) l = ground (arith, l.1 refl)
present_or_closed x (suc n) (some k) l = ground arith

-- A program begins with a session object; each channel, listener, SFTP, file and directory object
-- has as many references as the program and the sets of the session and of SFTP objects have to it
-- and, for a channel, as are lost; of those in memory only closed files and directories have none,
-- SFTP objects that are shut down have empty sets, and the numbers of new objects are free. A
-- reference is lost whenever `scp_recv` returns a channel. Then in every state that the program gets
-- to by the methods of all these objects, but for `userauth_agent`, `callback_set`, `direct_tcpip`
-- and `list_files`, and by copying and dropping its references, while `forward_listen` gets NULL for
-- its port, a listener or an SFTP object is in memory if and only if the program or a set of the
-- session has a reference to it, a channel if and only if the program or the set has one or one is
-- lost, and a file or directory if and only if the program or a set of an SFTP object has one, or it
-- is closed: none is freed too early, and only closed files and directories, and channels of
-- `scp_recv`, are left.
pub Arrives-is_some :
    (env : Env) (sid : ObjId) (s t : Client) (x : ObjId)
    → StillSteady sid (with_lost s.refs s.lost) s.world
    → ((y : ObjId) → s.refs.ending y ≡ false)
    → Arrives env sid s t
    → (is_some (t.world.channels x)
        ≡ ltb 0
            (t.refs.channels x + t.lost x + in_session (λ b. b.channels) x (t.world.sessions sid)))
      × (is_some (t.world.listeners x)
          ≡ ltb 0 (t.refs.listeners x + in_session (λ b. b.listeners) x (t.world.sessions sid)))
      × (is_some (t.world.sftps x)
          ≡ ltb 0 (t.refs.sftps x + in_session (λ b. b.sftps) x (t.world.sessions sid)))
      × (is_some (t.world.handles x) ≡ (
          ltb 0 (t.refs.handles x + in_all_sets t.world.sftps t.world.next x)
          || closed (t.world.handles x)))
Arrives-is_some env sid s t x k none_ends arrived =
    let (o, k') = Arrives-StillSteady env sid s k arrived in
    let same = Arrives-ending env sid s arrived in
    rw k'.is_there (
      present _ _ (t.world.channels x) (λ b e. e) (k'.channels.entries x),
      present _ _ (t.world.listeners x) (λ b e. e) (k'.listeners.entries x),
      present _ _ (t.world.sftps x) (λ b e. ground (arith, e, none_ends x, ap (λ f. f x) same))
          (k'.sftps.entries x),
      present_or_closed x _ (t.world.handles x) (k'.handles.entries x),
    )
