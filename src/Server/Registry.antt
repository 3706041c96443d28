-- ===== src/Server/Registry.antt =====
-- The registration of the servers' sessions in their container, in OnAccepted and OnDisconnected of
-- FastPortServer/IOCPInboundSession.cpp and FastPortServerRIO/RIOInboundSession.cpp. `T` is what the
-- container keeps of a session.
pub mod Membership
use fast_port.Prelude.{ℕ, Bool, true, false, List, [], ◌∷◌}
use fast_port.Buffers.Interface.{IBuffer}
use fast_port.Sessions.IoSession.State.{Session, Env}
use fast_port.Sessions.IoSession.Posting.{start_receive_loop}
use fast_port.Rio.Session.State.{RioSession, RioEnv}
use fast_port.Rio.Session.Receiving.{on_accepted}
use fast_port.Server.Container.{Container, add, remove}

module _ {T : Type 0} where
  unfoldable pub register : ℕ → T → Container T → Container T
  register id session sessions = (add id session sessions).1

  unfoldable pub unregister : ℕ → Container T → Container T
  unregister id sessions = (remove id sessions).1

  unfoldable pub accept_iocp :
      (I : IBuffer) → Env I.Buf → ℕ → T → Session I.Buf → Container T → Session I.Buf × Container T
  accept_iocp I env id handle s sessions = (start_receive_loop I env s, register id handle sessions)

  unfoldable pub accept_rio :
      (I : IBuffer)
      → RioEnv I.Buf
      → ℕ
      → T
      → RioSession I.Buf
      → Container T
      → RioSession I.Buf × Container T
  accept_rio I env id handle s sessions = (on_accepted I env s, register id handle sessions)

-- What happens to the container: a session is accepted, or has ended.
pub data Change (T : Type 0) : Type 0 where
  accepted : ℕ → T → Change T
  ended : ℕ → Change T

unfoldable pub change : {T : Type 0} → Change T → Container T → Container T
change (accepted id session) sessions = register id session sessions
change (ended id) sessions = unregister id sessions

-- The changes in their order.
unfoldable pub changes : {T : Type 0} → List (Change T) → Container T → Container T
changes [] sessions = sessions
changes (c ∷ cs) sessions = changes cs (change c sessions)
