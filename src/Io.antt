-- ===== src/Io.antt =====
-- adb_io.cpp over file descriptors that the model does not implement. `adb_read` and `adb_write`
-- are the fields of a `Reader` and a `Writer`; a descriptor's state is threaded through each call.
-- `errno` and the log lines are left out. A read loop runs on fuel, the bytes still wanted; a
-- write loop runs on a fuel that also pays for the `EAGAIN` answers, since the source spins on
-- them.
pub mod Hex
pub mod Exact
pub mod Protocol
use adb_src.Base.{
  ℕ, zero, suc, ◌-◌, ◌≤◌, ◌<◌, ◌≡◌, ◌⊎◌, Bool, true, false, Option, none, some, [], ◌∷◌, ◌++◌, ◌==◌,
  if◌then◌else◌, Bytes, length, take, drop,
}

-- The result of `adb_read`: `r > 0` with the bytes, `r == 0`, or `r == -1`.
pub data ReadResult : Type 0 where
  got : Bytes → ReadResult
  closed : ReadResult
  failed : ReadResult

-- The result of `adb_write`: `r >= 0`, or `r == -1` by `errno`.
pub data WriteResult : Type 0 where
  wrote : ℕ → WriteResult
  again : WriteResult
  broken : WriteResult

pub record Reader : Type 1 where
  pub Fd : Type 0
  pub adb_read : Fd → ℕ → ReadResult × Fd

pub record Writer : Type 1 where
  pub Fd : Type 0
  pub adb_write : Fd → Bytes → WriteResult × Fd

-- What read(2) documents of a descriptor that holds `pending` before its first error or end of
-- file: it hands over a non-empty part of the front, and fails or ends only when none is left.
pub record Delivers (R : Reader) : Type 0 where
  pub pending : R.Fd → Bytes
  pub read_lem :
      (fd : R.Fd) (n : ℕ)
      → 0 < n
      → ((b : ℕ) × (bs : Bytes) × (fd' : R.Fd) × (R.adb_read fd n ≡ (got (b ∷ bs), fd'))
          × (length (b ∷ bs) ≤ n)
          × (pending fd ≡ (b ∷ bs) ++ pending fd'))
        ⊎ ((fd' : R.Fd) × (pending fd ≡ [])
            × ((R.adb_read fd n ≡ (closed, fd')) ⊎ (R.adb_read fd n ≡ (failed, fd'))))

-- What write(2) documents: it takes a non-empty part of the front, and fails otherwise. `sent` is
-- what the other end receives. `stalls` bounds the `EAGAIN` answers still to come.
pub record Accepts (W : Writer) : Type 0 where
  pub sent : W.Fd → Bytes
  pub stalls : W.Fd → ℕ
  pub write_lem :
      (fd : W.Fd) (b : ℕ) (bs : Bytes)
      → ((n : ℕ) × (fd' : W.Fd) × (W.adb_write fd (b ∷ bs) ≡ (wrote (suc n), fd'))
          × (suc n ≤ length (b ∷ bs))
          × (sent fd' ≡ sent fd ++ take (suc n) (b ∷ bs))
          × (stalls fd' ≤ stalls fd))
        ⊎ ((fd' : W.Fd) × (W.adb_write fd (b ∷ bs) ≡ (again, fd'))
            × (sent fd' ≡ sent fd)
            × (stalls fd' < stalls fd))
        ⊎ ((fd' : W.Fd) × (W.adb_write fd (b ∷ bs) ≡ (broken, fd')) × (sent fd' ≡ sent fd))

module _ (R : Reader) where
  open R use {Fd, adb_read}

  -- One turn of the loop: what is done with the result of `adb_read`.
  after_read :
      (Fd → ℕ → Bytes → Option Bytes × Fd) → ℕ → Bytes → ReadResult × Fd → Option Bytes × Fd
  after_read rest len buf (got [], fd) = (none, fd)
  after_read rest len buf (got (b ∷ bs), fd) = rest fd (len - length (b ∷ bs)) (buf ++ (b ∷ bs))
  after_read rest len buf (closed, fd) = (none, fd)
  after_read rest len buf (failed, fd) = (none, fd)

  read_loop : ℕ → Fd → ℕ → Bytes → Option Bytes × Fd
  unfolding after_read
  read_loop zero fd len buf = (if len == 0 then some buf else none, fd)
  read_loop (suc fuel) fd len buf =
      if len == 0 then (some buf, fd) else after_read (read_loop fuel) len buf (adb_read fd len)

  -- The bytes read, or `none` where the source returns false.
  unfoldable pub read_fd_exactly : Fd → ℕ → Option Bytes × Fd
  unfolding read_loop
  read_fd_exactly fd len = read_loop len fd len []

module _ (W : Writer) where
  open W use {Fd, adb_write}

  after_write : (Fd → Bytes → Option (Bool × Fd)) → Bytes → WriteResult × Fd → Option (Bool × Fd)
  after_write rest buf (wrote n, fd) = rest fd (drop n buf)
  after_write rest buf (again, fd) = rest fd buf
  after_write rest buf (broken, fd) = some (false, fd)

  -- `none` means that the fuel ran out.
  write_loop : ℕ → Fd → Bytes → Option (Bool × Fd)
  unfolding after_write
  write_loop zero fd [] = some (true, fd)
  write_loop zero fd (b ∷ bs) = none
  write_loop (suc fuel) fd [] = some (true, fd)
  write_loop (suc fuel) fd (b ∷ bs) = after_write (write_loop fuel) (b ∷ bs) (adb_write fd (b ∷ bs))

  unfoldable pub write_fd_exactly : ℕ → Fd → Bytes → Option (Bool × Fd)
  unfolding write_loop
  write_fd_exactly fuel fd buf = write_loop fuel fd buf
