-- ===== src/Lifecycle.antt =====
-- The life of one transport in transport.cpp, on a host: its registration, its two threads with
-- the socket pair between them and the main thread, the count of references, and its removal. The
-- steps of the threads interleave; a thread's step is one packet, one kick, or one half of
-- transport_unref, whose decrement is atomic. A write of a packet's address to the socket pair may
-- fail, and so may the remote side; the environment chooses. Logging, thread names and the lock are
-- left out. Registration is one step: the source starts the threads before it puts the transport on
-- the list, and a kick between the two, which would find it not listed, is not among the steps.
pub mod Reach
pub mod Alive
use adb_src.Base.{
  ℕ, zero, suc, ◌+◌, ◌%◌, ◌^◌, bit_xor, Bool, true, false, Option, none, some, List, [], ◌∷◌, ◌++◌,
  ◌==◌, if◌then◌else◌,
}
use adb_src.Packet.{Packet, get_apacket, a_sync}

pub data Thread : Type 0 where
  read_thread write_thread : Thread

-- Where a thread is: in its loop, before kick_transport, before transport_unref, between its
-- decrement of the last reference and the removal, and behind these.
pub data Phase : Type 0 where
  idle working kicking unreffing closing done : Phase

-- Where the read thread is in its loop.
pub data Stage : Type 0 where
  starting pumping going_offline : Stage

-- `tmsg`, by its action.
pub data Action : Type 0 where
  action_remove action_register : Action

pub data RemoteRead : Type 0 where
  received : Packet → RemoteRead
  failed : RemoteRead

-- `to_main` and `to_writer` are the two directions of the socket pair, `messages` what the
-- registration socket holds about this transport, `kicks` and `closes` the calls of `kick_func_`
-- and `close`, `written` the packets that `Write` sent.
pub record Life : Type 0 where
  pub no_perm : Bool
  pub pending : Bool
  pub listed : Bool
  pub freed : Bool
  pub kicked : Bool
  pub kicks : ℕ
  pub closes : ℕ
  pub ref_count : ℕ
  pub sync_token : ℕ
  pub reader : Phase
  pub stage : Stage
  pub writer : Phase
  pub active : Bool
  pub to_main : List Packet
  pub to_writer : List Packet
  pub written : List Packet
  pub messages : List Action

-- After register_transport.
abbrev pub registered : Bool → Life
registered no_perm = record {
  no_perm = no_perm;
  pending = true;
  listed = false;
  freed = false;
  kicked = false;
  kicks = 0;
  closes = 0;
  ref_count = 0;
  sync_token = 0;
  reader = idle;
  stage = starting;
  writer = idle;
  active = false;
  to_main = [];
  to_writer = [];
  written = [];
  messages = action_register ∷ [];
}

abbrev pub phase_of : Thread → Life → Phase
phase_of read_thread l = l.reader
phase_of write_thread l = l.writer

abbrev pub set_phase : Thread → Phase → Life → Life
set_phase read_thread p l = record l { reader = p }
set_phase write_thread p l = record l { writer = p }

abbrev pub sync_packet : ℕ → ℕ → Packet
sync_packet arg0 arg1 = record get_apacket {
  msg = record m { command = a_sync; arg0 = arg0; arg1 = arg1; magic = bit_xor a_sync 0xffffffff };
}
  where
    open get_apacket use {msg as m}

-- read_transport_thread up to its loop; `sent` is whether write_packet went through.
unfoldable pub reader_sync : Bool → Life → Life
reader_sync sent l =
    let token = (l.sync_token + 1) % 2 ^ 32 in
    if sent
    then record l {
      sync_token = token;
      stage = pumping;
      to_main = l.to_main ++ (sync_packet 1 token ∷ []);
    }
    else record l { sync_token = token; reader = kicking }

-- One turn of its loop. A packet with no command is dropped.
unfoldable pub reader_read : Bool → RemoteRead → Life → Life
reader_read sent failed l = record l { stage = going_offline }
reader_read sent (received p) l =
    if p.msg.command == 0
    then l
    else if sent
    then record l { to_main = l.to_main ++ (p ∷ []) }
    else record l { reader = kicking }

-- Behind its loop.
unfoldable pub reader_offline : Bool → Life → Life
reader_offline sent l = record l {
  reader = kicking;
  to_main = if sent then l.to_main ++ (sync_packet 0 0 ∷ []) else l.to_main;
}

-- One turn of write_transport_thread, on the packet that it read; `sent` is whether `Write` went
-- through.
unfoldable pub writer_packet : Bool → Packet → Life → Life
writer_packet sent p l =
    if p.msg.command == a_sync
    then (if p.msg.arg0 == 0
        then record l { writer = kicking }
        else if p.msg.arg1 == l.sync_token
        then record l { active = true }
        else l)
    else (if l.active
        then (if sent
            then record l { written = l.written ++ (p ∷ []) }
            else record l { writer = kicking })
        else l)

-- atransport::Kick.
unfoldable pub kick : Life → Life
kick l = if l.kicked then l else record l { kicked = true; kicks = suc l.kicks }

unfoldable pub kick_transport : Life → Life
unfolding kick
kick_transport l = if l.listed then kick l else l

-- The decrement of transport_unref, by the old count. `none` is the CHECK of a count of 0.
unfoldable pub unref_from : Thread → ℕ → Life → Option Life
unref_from t zero l = none
unref_from t (suc zero) l = some (set_phase t closing (record l { ref_count = 0 }))
unref_from t (suc (suc n)) l = some (set_phase t done (record l { ref_count = suc n }))

unfoldable pub transport_unref : Thread → Life → Option Life
unfolding unref_from
transport_unref t l = unref_from t l.ref_count l

-- `t->close(t); remove_transport(t);`
unfoldable pub close_and_remove : Thread → Life → Life
close_and_remove t l =
    set_phase t done
      (record l { closes = suc l.closes; messages = l.messages ++ (action_remove ∷ []) })

-- transport_registration_func, by the action of its message. An inaccessible device gets no
-- threads.
unfoldable pub registration : Action → Life → Life
registration action_remove l = record l { listed = false; freed = true }
registration action_register l =
    if l.no_perm then record l { pending = false; listed = true } else record l {
      pending = false;
      listed = true;
      ref_count = 2;
      reader = working;
      stage = starting;
      writer = working;
      active = false;
    }
