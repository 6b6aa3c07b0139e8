-- ===== src/Lifecycle/Reach.antt =====
-- The interleavings of the main thread and the two threads of a transport.
use adb_src.Base.{Bool, some, List, [], ◌∷◌, ◌++◌, ◌≡◌}
use adb_src.Packet.{Packet}
use adb_src.Lifecycle.{
  Thread, working, kicking, unreffing, closing, starting, pumping, going_offline, Action,
  RemoteRead, Life, phase_of, set_phase, reader_sync, reader_read, reader_offline, writer_packet,
  kick_transport, transport_unref, close_and_remove, registration,
}

pub data Step : Life → Life → Type 0 where
  -- The main thread reads the registration socket.
  register_or_remove :
      {l : Life} (a : Action) (rest : List Action)
      → l.messages ≡ a ∷ rest
      → Step l (registration a (record l { messages = rest }))
  -- The main thread handles a packet, and sends one.
  handle :
      {l : Life} (p : Packet) (rest : List Packet)
      → l.to_main ≡ p ∷ rest
      → Step l (record l { to_main = rest })
  send : {l : Life} (p : Packet) → Step l (record l { to_writer = l.to_writer ++ (p ∷ []) })
  -- The read thread.
  sync :
      {l : Life} (sent : Bool)
      → l.reader ≡ working
      → l.stage ≡ starting
      → Step l (reader_sync sent l)
  read :
      {l : Life} (sent : Bool) (r : RemoteRead)
      → l.reader ≡ working
      → l.stage ≡ pumping
      → Step l (reader_read sent r l)
  offline :
      {l : Life} (sent : Bool)
      → l.reader ≡ working
      → l.stage ≡ going_offline
      → Step l (reader_offline sent l)
  -- The write thread reads a packet, or fails to.
  write :
      {l : Life} (sent : Bool) (p : Packet) (rest : List Packet)
      → l.writer ≡ working
      → l.to_writer ≡ p ∷ rest
      → Step l (writer_packet sent p (record l { to_writer = rest }))
  write_failed : {l : Life} → l.writer ≡ working → Step l (record l { writer = kicking })
  -- The end of either thread.
  kick :
      {l : Life} (t : Thread)
      → phase_of t l ≡ kicking
      → Step l (set_phase t unreffing (kick_transport l))
  unref :
      {l l' : Life} (t : Thread)
      → phase_of t l ≡ unreffing
      → transport_unref t l ≡ some l'
      → Step l l'
  close : {l : Life} (t : Thread) → phase_of t l ≡ closing → Step l (close_and_remove t l)
  -- Any other caller of kick_transport.
  kick_other : {l : Life} → Step l (kick_transport l)

pub data Reach (s : Life) : Life → Type 0 where
  here : Reach s s
  next : {l l' : Life} → Reach s l → Step l l' → Reach s l'
