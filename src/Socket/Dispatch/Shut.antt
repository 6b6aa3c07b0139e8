-- ===== src/Socket/Dispatch/Shut.antt =====
-- Which sockets an A_CLSE can close: a peer on another transport is out of its reach unless the
-- packet names that peer's id.
use mathlib.Core.Option.{some-injective}
use adb_src.Base.{
  ℕ, Bool, true, not, ◌&&◌, Option, none, some, List, [], ◌∷◌, ◌==◌, if◌then◌else◌, ◌≡◌, ◌≢◌, ◌⊎◌,
  inl, inr, refl, sym, ap, ◌∙◌, arith, Bool-cases, Option-cases, ==_refl,
}
use adb_src.Packet.{Packet}
use adb_src.Socket.Store.{Os, Socket, State, ok, member}
use adb_src.Socket.Registry.{peer_has_id, find_at, find_in, find_local_socket}
use adb_src.Socket.Registry.Lookup.{Answers, find_in-Answers}
use adb_src.Socket.Close.{close, same_transport}
use adb_src.Socket.Close.Finish.{Ends, Ends-mono}
use adb_src.Socket.Close.Lone.{SendFailReturns, IsWellFormed}
use adb_src.Socket.Close.Pair.{Closed}
use adb_src.Socket.Close.Safety.{close-Closed}
use adb_src.Socket.Dispatch.{is_foreign, close_unless, close_found, handle_close}

-- The transport `t` may close the socket at `p` by a packet with these ids: the socket has the id
-- `arg1`, and it has no peer, or its peer is on `t`, or `arg0` is the id of its peer and not 0.
abbrev pub MayClose : {O : Os} → State O → ℕ → ℕ → ℕ → ℕ → Type 0
MayClose st t arg0 arg1 p =
    (s : Socket) × (st.heap p ≡ some s)
    × (s.id ≡ arg1)
    × ((s.peer ≡ none)
        ⊎ ((q : ℕ) × (u : Socket) × (s.peer ≡ some q)
            × (st.heap q ≡ some u)
            × ((same_transport u.transport t ≡ true) ⊎ ((u.id ≡ arg0) × (arg0 ≢ 0)))))

module _ {O : Os} (st : State O) (w : IsWellFormed st) where
  peer_has_id-total :
      (p : ℕ) (s : Socket) (peer_id : ℕ)
      → st.heap p ≡ some s
      → (o : Option ℕ) × (peer_has_id st p s.peer peer_id ≡ ok o)
  unfolding peer_has_id
  peer_has_id-total p s peer_id at = elim (Option-cases s.peer) [
    | inl lone ↦ (if peer_id == 0 then some p else none, rw lone refl)
    | inr (q, joined) ↦
        let (_, (u, there, _)) = w.paired p q s at joined in
        elim (Bool-cases (peer_id == 0)) [
          | inl any ↦ (some p, rw (joined, any) refl)
          | inr named ↦ (if u.id == peer_id then some p else none, rw (joined, named, there) refl)
        ]
  ]

  pub find_in-total :
      (l : List ℕ) (local_id peer_id : ℕ)
      → ((r : ℕ) → member r l ≡ true → member r st.local_socket_list ≡ true)
      → (o : Option ℕ) × (find_in st l local_id peer_id ≡ ok o)
  unfolding find_in find_at member
  find_in-total [] i j inside = (none, refl)
  find_in-total (p ∷ l) i j inside =
      let (s, at, _) = w.listed p (inside p (ground (arith, ==_refl p))) in
      elim (Bool-cases (s.id == i)) [
        | inl own ↦ let (o, e) = peer_has_id-total p s j at in (o, rw (at, own) e)
        | inr other ↦
            let (o, e) = find_in-total l i j (λ r h. inside r (ground arith)) in
            (o, rw (at, other) e)
      ]

module _ {O : Os} (send_fuel : ℕ) (returns : SendFailReturns O send_fuel) (t : ℕ) (packet : Packet)
    (st : State O) (w : IsWellFormed st) where
  -- What an A_CLSE does to the store.
  abbrev pub Shuts : State O → Type 0
  Shuts st' =
      (st' ≡ st) ⊎ ((p : ℕ) × MayClose st t packet.msg.arg0 packet.msg.arg1 p × Closed p st st')

  shut :
      (p : ℕ) (s : Socket)
      → st.heap p ≡ some s
      → MayClose st t packet.msg.arg0 packet.msg.arg1 p
      → Ends Shuts (close send_fuel 4 p st)
  shut p s at may =
      Ends-mono (Closed p st) Shuts (close send_fuel 4 p st) (λ st' d. inr (p, may, d))
        (close-Closed send_fuel returns p s st w at)

  named_peer :
      (p q : ℕ) (s u : Socket)
      → st.heap p ≡ some s
      → s.peer ≡ some q
      → st.heap q ≡ some u
      → packet.msg.arg0 ≢ 0
      → Answers st p packet.msg.arg1 packet.msg.arg0
      → u.id ≡ packet.msg.arg0
  named_peer p q s u at joined there named (s', at', own, inl any) = absurd (named any)
  named_peer p q s u at joined there named (s', at', own, inr (q', u', joined', there', e)) =
      let same : s' ≡ s = some-injective _ _ (sym at' ∙ at) in
      let same_peer : q' ≡ q = some-injective _ _ (sym joined' ∙ ap (λ x. x.peer) same ∙ joined) in
      let same_cell : u' ≡ u = some-injective _ _ (sym there' ∙ ap st.heap same_peer ∙ there) in
      sym (ap (λ x. x.id) same_cell) ∙ e

  close_found-Shuts :
      (o : Option ℕ)
      → ((p : ℕ) → o ≡ some p → Answers st p packet.msg.arg1 packet.msg.arg0)
      → Ends Shuts (close_found send_fuel packet t o st)
  unfolding close_found is_foreign close_unless
  close_found-Shuts none a = inl refl
  close_found-Shuts (some p) a =
      let (s, at, own, _) = a p refl in
      elim (Option-cases s.peer) [
        | inl lone ↦ rw (at, lone) (shut p s at (s, at, own, inl lone))
        | inr (q, joined) ↦
            let (_, (u, there, _)) = w.paired p q s at joined in
            elim (Bool-cases (packet.msg.arg0 == 0)) [
              | inl any ↦ elim (Bool-cases (same_transport u.transport t)) [
                | inl ours ↦
                    rw (at, joined, any, there, ours)
                      (shut p s at (s, at, own, inr (q, u, joined, there, inl ours)))
                | inr foreign ↦ rw (at, joined, any, there, foreign) (inl refl)
              ]
              | inr named ↦
                  let nonzero : packet.msg.arg0 ≢ 0 = ground arith in
                  rw (at, joined, named)
                    (shut p s at (
                      s,
                      at,
                      own,
                      inr (
                        q,
                        u,
                        joined,
                        there,
                        inr (named_peer p q s u at joined there nonzero (a p refl), nonzero),
                      ),
                    ))
            ]
      ]

  -- From a well-formed store, and where SendFail returns, an A_CLSE on the transport `t` leaves the
  -- store as it was, or closes one socket, which has the id `arg1`, and its peer, and touches no
  -- other; the peer is on `t`, or its id is the one that the packet names and not 0, or there is
  -- none. So a packet with a zero id closes nothing that is connected to another transport.
  pub handle_close-Shuts : (online : Bool) → Ends Shuts (handle_close send_fuel online packet t st)
  unfolding handle_close find_local_socket
  handle_close-Shuts online = elim (Bool-cases (online && not (packet.msg.arg1 == 0))) [
    | inr dropped ↦ rw dropped (inl refl)
    | inl taken ↦
        let (o, e) =
          find_in-total st w st.local_socket_list packet.msg.arg1 packet.msg.arg0 (λ r m. m) in
        rw (taken, e)
          (close_found-Shuts o (λ p found.
            (find_in-Answers st st.local_socket_list packet.msg.arg1 packet.msg.arg0 p
              (e ∙ ap ok found)).1))
  ]
