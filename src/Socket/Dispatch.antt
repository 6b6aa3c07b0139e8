-- ===== src/Socket/Dispatch.antt =====
-- handle_packet of adb.cpp on the packets of an open stream: its cases A_OKAY and A_CLSE. `online`
-- is `t->online`.
pub mod Shut
use adb_src.Base.{ℕ, Bool, true, false, not, ◌&&◌, Option, none, some, ◌==◌, if◌then◌else◌}
use adb_src.Packet.{Packet}
use adb_src.Socket.Store.{◌>>=◌, ◌>>◌, Os, M, return, load, store}
use adb_src.Socket.Registry.{find_local_socket}
use adb_src.Socket.Remote.{create_remote_socket, send_close}
use adb_src.Socket.Close.{close, same_transport}
use adb_src.Socket.Queue.{ready}

module _ {O : Os} where
  -- The first A_OKAY makes the connection; a later one has to name the same peer.
  unfoldable pub okay_by : ℕ → Packet → ℕ → ℕ → Option ℕ → M O (Unit {0})
  okay_by send_fuel packet t p none = do
    q ← create_remote_socket packet.msg.arg0 t
    s ← load p
    store p (record s { peer = some q })
    r ← load q
    store q (record r { peer = some p })
    ready send_fuel p
  okay_by send_fuel packet t p (some q) = do
    r ← load q
    if r.id == packet.msg.arg0 then ready send_fuel p else return tt

  -- With no such socket, the sender is told to close its own.
  unfoldable pub answer_okay : ℕ → Packet → ℕ → Option ℕ → M O (Unit {0})
  unfolding okay_by
  answer_okay send_fuel packet t none = send_close packet.msg.arg1 packet.msg.arg0 (some t)
  answer_okay send_fuel packet t (some p) = do s ← load p; okay_by send_fuel packet t p s.peer

  unfoldable pub handle_okay : ℕ → Bool → Packet → ℕ → M O (Unit {0})
  unfolding answer_okay
  handle_okay send_fuel online packet t =
      if online && not (packet.msg.arg0 == 0) && not (packet.msg.arg1 == 0)
      then (do found ← find_local_socket packet.msg.arg1 0; answer_okay send_fuel packet t found)
      else return tt

  -- `arg0 == 0 && s->peer && s->peer->transport != t`
  unfoldable pub is_foreign : ℕ → Option ℕ → ℕ → M O Bool
  is_foreign arg0 none t = return false
  is_foreign arg0 (some q) t =
      if arg0 == 0
      then (do u ← load q; return (not (same_transport u.transport t)))
      else return false

  -- An invalid A_CLSE is dropped.
  unfoldable pub close_unless : ℕ → ℕ → Bool → M O (Unit {0})
  close_unless send_fuel p true = return tt
  close_unless send_fuel p false = close send_fuel 4 p

  unfoldable pub close_found : ℕ → Packet → ℕ → Option ℕ → M O (Unit {0})
  unfolding is_foreign close_unless
  close_found send_fuel packet t none = return tt
  close_found send_fuel packet t (some p) = do
    s ← load p
    foreign ← is_foreign packet.msg.arg0 s.peer t
    close_unless send_fuel p foreign

  unfoldable pub handle_close : ℕ → Bool → Packet → ℕ → M O (Unit {0})
  unfolding close_found
  handle_close send_fuel online packet t =
      if online && not (packet.msg.arg1 == 0)
      then (do
        found ← find_local_socket packet.msg.arg1 packet.msg.arg0
        close_found send_fuel packet t found)
      else return tt
