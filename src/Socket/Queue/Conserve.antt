-- ===== src/Socket/Queue/Conserve.antt =====
-- No byte is lost, repeated or reordered between a socket's queue and its descriptor.
use adb_src.Base.{
  ℕ, suc, zero, ◌+◌, ◌-◌, ◌≤◌, ◌<◌, true, List, [], ◌∷◌, ◌++◌, ◌==◌, ◌≡◌, ◌≢◌, inl, inr, refl, sym,
  ap, ◌∙◌, arith, Bool-cases, length, ==_iff, Bytes, take, drop, length-take, length-drop,
  take-append-drop, drop-drop, drop-take, append_assoc,
}
use adb_src.Packet.{Packet}
use adb_src.Io.{Accepts}
use adb_src.Socket.Store.{Os, writer}
use adb_src.Socket.Queue.{unsent, Drain, emptied, after_out, write_out}

-- The bytes that wait in a queue, in order.
abbrev pub backlog : List Packet → Bytes
backlog [] = []
backlog (p ∷ ps) = unsent p ++ backlog ps

-- A packet's `ptr` and `len` lie within its data.
abbrev pub Fits : Packet → Type 0
Fits p = p.ptr + p.len ≤ length p.data_bytes

-- What an account of the descriptor shows after a loop that started with these bytes to send.
module _ (O : Os) (fd : ℕ) (A : Accepts (writer O fd)) where
  pub record Written (p : Packet) (w : O.World) (r : Drain × Packet × O.World) : Type 0 where
    pub same_bytes : A.sent r.2 ++ unsent r.1 ≡ A.sent w ++ unsent p
    pub fits : Fits r.1
    pub done : r.0 ≡ emptied → r.1.len ≡ 0
    pub waits : r.0 ≢ emptied → 0 < r.1.len

  pub length-unsent : (p : Packet) → Fits p → length (unsent p) ≡ p.len
  length-unsent p f =
      length-take p.len (drop p.ptr p.data_bytes) ∙ omega (arith, length-drop p.ptr p.data_bytes)

  unsent-advance :
      (p : Packet) (n : ℕ)
      → unsent (record p { len = p.len - n; ptr = p.ptr + n }) ≡ drop n (unsent p)
  unsent-advance p n =
      ap (take (p.len - n)) (drop-drop p.ptr n p.data_bytes)
      ∙ sym (drop-take n p.len (drop p.ptr p.data_bytes))

  -- One turn of the loop, on the bytes `xs` that are left.
  turn :
      (rest : Packet → O.World → Drain × Packet × O.World) (p : Packet) (w : O.World) (xs : Bytes)
      → unsent p ≡ xs
      → 0 < p.len
      → Fits p
      → ((n : ℕ) (w' : O.World)
          → suc n ≤ p.len
          → Written
              (record p { len = p.len - suc n; ptr = p.ptr + suc n })
              w'
              (rest (record p { len = p.len - suc n; ptr = p.ptr + suc n }) w'))
      → Written p w (after_out O rest p (O.adb_write w fd xs))
  unfolding after_out
  turn rest p w [] e pos f ih = absurd (omega (arith, ap length e, length-unsent p f))
  turn rest p w (b ∷ bs) e pos f ih = elim (A.write_lem w b bs) [
    | inl (n, w', answer, small, sent, _) ↦
        let later = ih n w' (omega (arith, ap length e, length-unsent p f)) in
        rw answer (record {
          same_bytes =
              later.same_bytes
              ∙ ap (λ x. x ++ unsent (record p { len = p.len - suc n; ptr = p.ptr + suc n })) sent
              ∙ append_assoc (A.sent w) (take (suc n) (b ∷ bs)) _
              ∙ ap (◌++◌ (A.sent w)) (
                  ap (◌++◌ (take (suc n) (b ∷ bs))) (unsent-advance p (suc n) ∙ ap (drop (suc n)) e)
                  ∙ take-append-drop (suc n) (b ∷ bs)
                  ∙ sym e);
          fits = later.fits;
          done = later.done;
          waits = later.waits;
        })
    | inr (inl (w', answer, sent, _)) ↦ rw answer (record {
      same_bytes = ap (λ x. x ++ unsent p) sent;
      fits = f;
      done = λ x. cc;
      waits = λ x. pos;
    })
    | inr (inr (w', answer, sent)) ↦ rw answer (record {
      same_bytes = ap (λ x. x ++ unsent p) sent;
      fits = f;
      done = λ x. cc;
      waits = λ x. pos;
    })
  ]

  pub write_out-Written :
      (fuel : ℕ) (p : Packet) (w : O.World)
      → p.len ≤ fuel
      → Fits p
      → Written p w (write_out O fuel fd p w)
  unfolding write_out
  write_out-Written zero p w h f =
      let t : (p.len == 0) ≡ true = ground arith in
      rw t (record {
        same_bytes = refl;
        fits = f;
        done = λ x. omega arith;
        waits = λ x. absurd (x refl);
      })
  write_out-Written (suc fuel) p w h f = elim (Bool-cases (p.len == 0)) [
    | inl over ↦ rw over (record {
      same_bytes = refl;
      fits = f;
      done = λ x. (==_iff _ _).0 over;
      waits = λ x. absurd (x refl);
    })
    | inr more ↦ rw more (
        turn (write_out O fuel fd) p w (unsent p) refl (ground arith) f
          (λ n w' small. write_out-Written fuel _ w' (omega arith) (omega arith)))
  ]
