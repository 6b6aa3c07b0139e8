-- ===== src/Tests/Stream.antt =====
-- Descriptors for the runs: one that hands over a byte at a time, and one that takes a byte at a
-- time into a log.
use adb_src.Base.{
  ℕ, zero, suc, ◌++◌, [], ◌∷◌, ◌≡◌, ◌≤◌, ◌<◌, ◌⊎◌, refl, inl, inr, arith, Bytes, length,
}
use adb_src.Io.{ReadResult, WriteResult, got, closed, wrote, Reader, Delivers, Accepts}
use adb_src.Socket.Store.{Os, writer, end_of_file}

abbrev pub slow_read : Bytes → ℕ → ReadResult × Bytes
slow_read fd zero = (got [], fd)
slow_read [] (suc n) = (closed, [])
slow_read (b ∷ fd) (suc n) = (got (b ∷ []), fd)

abbrev pub slow_reader : Reader
slow_reader = record { Fd = Bytes; adb_read = slow_read }

abbrev pub slow_reader-Delivers : Delivers slow_reader
slow_reader-Delivers = record { pending = λ fd. fd; read_lem = λ fd n h. handed fd n h }
  where
    handed :
        (fd : Bytes) (n : ℕ)
        → 0 < n
        → ((b : ℕ) × (bs : Bytes) × (fd' : Bytes) × (slow_read fd n ≡ (got (b ∷ bs), fd'))
            × (length (b ∷ bs) ≤ n)
            × (fd ≡ (b ∷ bs) ++ fd'))
          ⊎ ((fd' : Bytes) × (fd ≡ [])
              × ((slow_read fd n ≡ (closed, fd')) ⊎ (slow_read fd n ≡ (ReadResult.failed, fd'))))
    handed fd zero h = elim h [ ]
    handed [] (suc n) h = inr ([], refl, inl refl)
    handed (b ∷ fd) (suc n) h = inl (b, [], fd, refl, omega arith, refl)

abbrev pub slow_write : Bytes → ℕ → Bytes → WriteResult × Bytes
slow_write log fd [] = (wrote 0, log)
slow_write log fd (b ∷ bs) = (wrote 1, log ++ (b ∷ []))

abbrev pub slow_os : Os
slow_os = record { World = Bytes; adb_read = λ w fd n. (end_of_file, w); adb_write = slow_write }

abbrev pub slow_writer-Accepts : Accepts (writer slow_os 7)
slow_writer-Accepts = record {
  sent = λ log. log;
  stalls = λ log. 0;
  write_lem = λ log b bs. inl (0, log ++ (b ∷ []), refl, omega arith, refl, omega arith);
}
