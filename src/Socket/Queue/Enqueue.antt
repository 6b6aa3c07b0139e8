-- ===== src/Socket/Queue/Enqueue.antt =====
-- local_socket_enqueue and the drain of a queue, as accounts of the byte stream: what the
-- descriptor has taken and what still waits are, in order, what was handed over.
use adb_src.Base.{
  ℕ, true, some, List, [], ◌∷◌, ◌++◌, ◌≡◌, ◌≢◌, ◌⊎◌, refl, sym, ap, ◌∙◌, arith, Bytes, take, drop,
  append_assoc, append-nil, All,
}
use adb_src.Packet.{Packet}
use adb_src.Io.{Accepts}
use adb_src.Socket.Store.{Os, writer, Socket, State, Result, ok, bind_result, update, return}
use adb_src.Socket.Queue.{
  unsent, Drain, emptied, blocked, failed_write, write_out, after_packet, drain_queue,
  close_on_error,
}
use adb_src.Socket.Queue.Conserve.{backlog, Fits, Written, write_out-Written}

unsent-done : (p : Packet) → p.len ≡ 0 → unsent p ≡ []
unsent-done p e = ap (λ n. take n (drop p.ptr p.data_bytes)) e

module _ (O : Os) (fd : ℕ) (A : Accepts (writer O fd)) where
  -- The account of a queue that was drained as far as the descriptor took it.
  record Drained (packets : List Packet) (w : O.World) (r : Drain × List Packet × O.World)
      : Type 0 where
    pub same_bytes : A.sent r.2 ++ backlog r.1 ≡ A.sent w ++ backlog packets
    pub fits : All Fits r.1
    pub done : r.0 ≡ emptied → r.1 ≡ []
    pub waits : r.0 ≢ emptied → r.1 ≢ []

  after_packet-Drained :
      (p : Packet) (ps : List Packet) (w : O.World) (r : Drain × Packet × O.World)
      → All Fits ps
      → Written O fd A p w r
      → ((w' : O.World) → Drained ps w' (drain_queue O fd ps w'))
      → Drained (p ∷ ps) w (after_packet O (drain_queue O fd ps) ps r)
  unfolding after_packet
  after_packet-Drained p ps w (emptied, q, w') fits h ih =
      let d = ih w' in
      record {
        same_bytes =
            d.same_bytes
            ∙ ap (λ x. x ++ backlog ps)
                (sym (append-nil (A.sent w'))
                  ∙ ap (◌++◌ (A.sent w')) (sym (unsent-done q (h.done refl)))
                  ∙ h.same_bytes)
            ∙ append_assoc (A.sent w) (unsent p) (backlog ps);
        fits = d.fits;
        done = d.done;
        waits = d.waits;
      }
  after_packet-Drained p ps w (blocked, q, w') fits h ih = record {
    same_bytes =
        sym (append_assoc (A.sent w') (unsent q) (backlog ps))
        ∙ ap (λ x. x ++ backlog ps) h.same_bytes
        ∙ append_assoc (A.sent w) (unsent p) (backlog ps);
    fits = (h.fits, fits);
    done = λ x. cc;
    waits = λ x y. cc;
  }
  after_packet-Drained p ps w (failed_write, q, w') fits h ih = record {
    same_bytes =
        sym (append_assoc (A.sent w') (unsent q) (backlog ps))
        ∙ ap (λ x. x ++ backlog ps) h.same_bytes
        ∙ append_assoc (A.sent w) (unsent p) (backlog ps);
    fits = (h.fits, fits);
    done = λ x. cc;
    waits = λ x y. cc;
  }

  -- Draining a queue keeps the byte stream: what the descriptor has taken followed by what still
  -- waits is what it was, and the queue is empty exactly when the drain did not stop early.
  drain_queue-Drained :
      (packets : List Packet) (w : O.World)
      → All Fits packets
      → Drained packets w (drain_queue O fd packets w)
  unfolding drain_queue
  drain_queue-Drained [] w h = record {
    same_bytes = refl;
    fits = tt;
    done = λ x. refl;
    waits = λ x. absurd (x refl);
  }
  drain_queue-Drained (p ∷ ps) w h =
      after_packet-Drained p ps w (write_out O p.len fd p w) h.1
        (write_out-Written O fd A p.len p w (omega arith) h.0) (λ w'. drain_queue-Drained ps w' h.1)

-- The three ends of local_socket_enqueue on the socket `s` at `p`: the packet, or what is left of
-- it, waits behind the queue and the descriptor is watched; or all of it is written; or the write
-- failed and the socket is closed for that error.
abbrev pub EnqueueEnds :
    (O : Os) (send_fuel p : ℕ) (s : Socket)
    → Accepts (writer O s.fd)
    → State O
    → Packet
    → Result (ℕ × State O)
    → Type 0
EnqueueEnds O send_fuel p s A st packet r =
    ((s' : Socket) × (w' : O.World) × (r
        ≡ ok (1, record st { heap = update st.heap p (some s'); world = w' }))
      × (s'.fde_write ≡ true)
      × (A.sent w' ++ backlog s'.packets ≡ (A.sent st.world ++ backlog s.packets) ++ unsent packet))
    ⊎ ((w' : O.World) × (r ≡ ok (0, record st { world = w' }))
        × (s.packets ≡ [])
        × (A.sent w' ≡ A.sent st.world ++ unsent packet))
    ⊎ ((w' : O.World) × (rest : Bytes) × (r
          ≡ bind_result (close_on_error send_fuel p (record st { world = w' })) (λ _. return 1))
        × (s.packets ≡ [])
        × (rest ≢ [])
        × (A.sent w' ++ rest ≡ A.sent st.world ++ unsent packet))
