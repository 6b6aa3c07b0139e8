-- ===== src/Io/Exact.antt =====
-- `ReadFdExactly` and `WriteFdExactly` do not depend on how the system cuts the data up.
use adb_src.Base.{
  ℕ, zero, suc, ◌+◌, ◌-◌, ◌≤◌, ◌<◌, ◌≡◌, ◌⊎◌, Bool, true, false, Option, none, some, [], ◌∷◌, ◌++◌,
  Bytes, length, take, drop, inl, inr, refl, arith, append_assoc, append-nil, sym, ap, ◌∙◌,
  length-append, length-drop, take-append-drop, suc-eq-zero,
}
use adb_src.Io.{
  Reader, Writer, Delivers, Accepts, after_read, read_loop, read_fd_exactly, after_write,
  write_loop, write_fd_exactly,
}

take_over :
    (xs ys : Bytes) (n : ℕ) → length xs ≤ n → take n (xs ++ ys) ≡ xs ++ take (n - length xs) ys
take_over [] ys n h = ap (λ k. take k ys) (omega arith)
take_over (x ∷ xs) ys zero h = elim h [ ]
take_over (x ∷ xs) ys (suc n) h =
    ap (◌∷◌ x) (take_over xs ys n (omega arith) ∙ ap (λ k. xs ++ take k ys) (omega arith))

drop_over : (xs ys : Bytes) (n : ℕ) → length xs ≤ n → drop n (xs ++ ys) ≡ drop (n - length xs) ys
drop_over [] ys n h = ap (λ k. drop k ys) (omega arith)
drop_over (x ∷ xs) ys zero h = elim h [ ]
drop_over (x ∷ xs) ys (suc n) h =
    drop_over xs ys n (omega arith) ∙ ap (λ k. drop k ys) (omega arith)

-- What a read of `n` bytes gives on a descriptor that holds `held`.
abbrev pub ReadsExactly :
    (R : Reader) → Delivers R → R.Fd → ℕ → Bytes → Option Bytes × R.Fd → Type 0
ReadsExactly R D fd n buf r =
    (n ≤ length (D.pending fd)
      → (fd' : R.Fd) × (r ≡ (some (buf ++ take n (D.pending fd)), fd'))
        × (D.pending fd' ≡ drop n (D.pending fd)))
    × (length (D.pending fd) < n → (fd' : R.Fd) × (r ≡ (none, fd')))

module _ (R : Reader) (D : Delivers R) where
  read_loop_done :
      (fuel : ℕ) (fd : R.Fd) (buf : Bytes) → ReadsExactly R D fd 0 buf (read_loop R fuel fd 0 buf)
  unfolding read_loop
  read_loop_done zero fd buf =
      ((λ h. (fd, ap (λ b. (some b, fd)) (sym (append-nil buf)), refl)), λ h. elim h [ ])
  read_loop_done (suc fuel) fd buf =
      ((λ h. (fd, ap (λ b. (some b, fd)) (sym (append-nil buf)), refl)), λ h. elim h [ ])

  read_loop_lem :
      (fuel : ℕ) (fd : R.Fd) (n : ℕ) (buf : Bytes)
      → n ≤ fuel
      → ReadsExactly R D fd n buf (read_loop R fuel fd n buf)
  unfolding read_loop
  read_loop_lem fuel fd zero buf h = read_loop_done fuel fd buf
  read_loop_lem zero fd (suc n) buf h = elim h [ ]
  read_loop_lem (suc fuel) fd (suc n) buf h = elim (D.read_lem fd (suc n) (omega arith)) [
    | inl (b, bs, fd', e, small, split) ↦
        rw (suc-eq-zero n, e, after_read)
          (let ih =
              read_loop_lem fuel fd' (suc n - length (b ∷ bs)) (buf ++ (b ∷ bs)) (omega arith) in
            let total : length (D.pending fd) ≡ length (b ∷ bs) + length (D.pending fd') =
              ap length split ∙ length-append (b ∷ bs) (D.pending fd') in
            (
              (λ fits.
                  let (g, r, rest) = ih.0 (omega arith) in
                  (
                    g,
                    r
                        ∙ ap (λ x. (some x, g))
                            (append_assoc buf (b ∷ bs) _
                              ∙ ap (◌++◌ buf) (
                                  sym (
                                    ap (take (suc n)) split
                                    ∙ take_over (b ∷ bs) (D.pending fd') (suc n) small))),
                    rest
                        ∙ sym (
                            ap (drop (suc n)) split
                            ∙ drop_over (b ∷ bs) (D.pending fd') (suc n) small),
                  )),
              λ short. ih.1 (omega arith),
            ))
    | inr (fd', empty, e) ↦ elim e [
      | inl e ↦
          rw (suc-eq-zero n, e, after_read)
            ((λ fits. absurd (omega (arith, ap length empty))), λ short. (fd', refl))
      | inr e ↦
          rw (suc-eq-zero n, e, after_read)
            ((λ fits. absurd (omega (arith, ap length empty))), λ short. (fd', refl))
    ]
  ]

  -- `ReadFdExactly` of `n` bytes succeeds exactly when the descriptor holds `n` bytes before its
  -- first error or end of file, and then returns the first `n` of them and leaves the others.
  pub read_fd_exactly_lem : (fd : R.Fd) (n : ℕ) → ReadsExactly R D fd n [] (read_fd_exactly R fd n)
  unfolding read_fd_exactly
  read_fd_exactly_lem fd n = read_loop_lem n fd n [] (omega arith)

-- `WriteFdExactly` returned true with all of `buf` sent, or false with a proper front of it sent.
abbrev pub WritesExactly : (W : Writer) → Accepts W → W.Fd → Bytes → Option (Bool × W.Fd) → Type 0
WritesExactly W A fd buf r =
    ((fd' : W.Fd) × (r ≡ some (true, fd'))
      × (A.sent fd' ≡ A.sent fd ++ buf)
      × (A.stalls fd' ≤ A.stalls fd))
    ⊎ ((fd' : W.Fd) × (front : Bytes) × (b : ℕ) × (back : Bytes) × (r ≡ some (false, fd'))
        × (buf ≡ front ++ (b ∷ back))
        × (A.sent fd' ≡ A.sent fd ++ front))

module _ (W : Writer) (A : Accepts W) where
  WritesExactly-step :
      (fd fd₁ : W.Fd) (n : ℕ) (buf : Bytes) (r : Option (Bool × W.Fd))
      → A.sent fd₁ ≡ A.sent fd ++ take n buf
      → A.stalls fd₁ ≤ A.stalls fd
      → WritesExactly W A fd₁ (drop n buf) r
      → WritesExactly W A fd buf r
  WritesExactly-step fd fd₁ n buf r e s (inl (fd', ok, all, st)) = inl (
    fd',
    ok,
    all
        ∙ ap (λ x. x ++ drop n buf) e
        ∙ append_assoc (A.sent fd) (take n buf) (drop n buf)
        ∙ ap (◌++◌ (A.sent fd)) (take-append-drop n buf),
    omega arith,
  )
  WritesExactly-step fd fd₁ n buf r e s (inr (fd', front, b, back, no', cut, part)) = inr (
    fd',
    take n buf ++ front,
    b,
    back,
    no',
    sym (take-append-drop n buf)
        ∙ ap (◌++◌ (take n buf)) cut
        ∙ sym (append_assoc (take n buf) front (b ∷ back)),
    part ∙ ap (λ x. x ++ front) e ∙ append_assoc (A.sent fd) (take n buf) front,
  )

  write_loop_done : (fuel : ℕ) (fd : W.Fd) → WritesExactly W A fd [] (write_loop W fuel fd [])
  unfolding write_loop
  write_loop_done zero fd = inl (fd, refl, sym (append-nil _), omega arith)
  write_loop_done (suc fuel) fd = inl (fd, refl, sym (append-nil _), omega arith)

  write_loop_lem :
      (fuel : ℕ) (fd : W.Fd) (buf : Bytes)
      → length buf + A.stalls fd ≤ fuel
      → WritesExactly W A fd buf (write_loop W fuel fd buf)
  unfolding write_loop
  write_loop_lem fuel fd [] h = write_loop_done fuel fd
  write_loop_lem zero fd (b ∷ bs) h = absurd (omega arith)
  write_loop_lem (suc fuel) fd (b ∷ bs) h = elim (A.write_lem fd b bs) [
    | inl (n, fd', e, small, sent, st) ↦
        rw (e, after_write)
          (WritesExactly-step fd fd' (suc n) (b ∷ bs) _ sent st (
            write_loop_lem fuel fd' (drop (suc n) (b ∷ bs))
              (omega (arith, length-drop (suc n) (b ∷ bs)))))
    | inr (inl (fd', e, sent, st)) ↦
        rw (e, after_write)
          (WritesExactly-step fd fd' 0 (b ∷ bs) _ (sent ∙ sym (append-nil _)) (omega arith)
            (write_loop_lem fuel fd' (b ∷ bs) (omega arith)))
    | inr (inr (fd', e, sent)) ↦
        rw (e, after_write) (inr (fd', [], b, bs, refl, refl, sent ∙ sym (append-nil _)))
  ]

  -- Given fuel for its bytes and for the `EAGAIN` answers to come, `WriteFdExactly` returns: true
  -- with all of the buffer sent, or false with a proper front of it sent.
  pub write_fd_exactly_lem :
      (fuel : ℕ) (fd : W.Fd) (buf : Bytes)
      → length buf + A.stalls fd ≤ fuel
      → WritesExactly W A fd buf (write_fd_exactly W fuel fd buf)
  unfolding write_fd_exactly
  write_fd_exactly_lem fuel fd buf h = write_loop_lem fuel fd buf h
