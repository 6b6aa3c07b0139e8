-- ===== src/Socket/Store.antt =====
-- The store that sockets.cpp works on. An `asocket` is a cell of a heap, addressed by a number;
-- its function pointers are data types with one constructor for each function that the file
-- installs. A linked list of sockets is the list of its members' addresses, in order.
use adb_src.Base.{
  ℕ, Bool, false, ◌||◌, Option, none, some, List, [], ◌∷◌, ◌++◌, ◌==◌, if◌then◌else◌, Bytes,
}
use adb_src.Packet.{Packet}
use adb_src.Io.{WriteResult, Writer}

-- The result of `adb_read`: `r > 0` with the bytes, `r == 0`, or `r == -1` by `errno`.
pub data ReadAnswer : Type 0 where
  bytes : Bytes → ReadAnswer
  end_of_file : ReadAnswer
  not_yet : ReadAnswer
  read_error : ReadAnswer

-- What the machine answers to `adb_read` and `adb_write`, for every descriptor.
pub record Os : Type 1 where
  pub World : Type 0
  pub adb_read : World → ℕ → ℕ → ReadAnswer × World
  pub adb_write : World → ℕ → Bytes → WriteResult × World

-- One descriptor of the machine, as adb_io.cpp uses it.
abbrev pub writer : Os → ℕ → Writer
writer O fd = record { Fd = O.World; adb_write = λ w bs. O.adb_write w fd bs }

pub data EnqueueFunction : Type 0 where
  local_enqueue remote_enqueue smart_enqueue : EnqueueFunction

pub data ReadyFunction : Type 0 where
  local_ready local_ready_notify remote_ready smart_ready : ReadyFunction

-- `no_shutdown` is the null pointer.
pub data ShutdownFunction : Type 0 where
  no_shutdown remote_shutdown : ShutdownFunction

pub data CloseFunction : Type 0 where
  local_close local_close_notify remote_close smart_close : CloseFunction

-- `fde_read` and `fde_write` are the event bits of `fde.state`, `force_eof` its field.
pub record Socket : Type 0 where
  pub id : ℕ
  pub closing : Bool
  pub has_write_error : Bool
  pub exit_on_close : Bool
  pub peer : Option ℕ
  pub fde_read : Bool
  pub fde_write : Bool
  pub force_eof : Bool
  pub fd : ℕ
  pub packets : List Packet
  pub enqueue : EnqueueFunction
  pub ready : ReadyFunction
  pub shutdown : ShutdownFunction
  pub close : CloseFunction
  pub transport : Option ℕ

-- `sent` are the packets passed to `send_packet`, the last one last, with their transport;
-- `closed_fds` the descriptors that `fdevent_remove` closed.
pub record State (O : Os) : Type 0 where
  pub heap : ℕ → Option Socket
  pub next_address : ℕ
  pub local_socket_list : List ℕ
  pub local_socket_closing_list : List ℕ
  pub local_socket_next_id : ℕ
  pub max_payload_of : ℕ → ℕ
  pub sent : List (ℕ × Packet)
  pub closed_fds : List ℕ
  pub world : O.World

-- `fault` is a read through a null or dangling pointer, `fatal` an abort, `exited` a call of exit.
pub data Result {ℓ} (A : Type ℓ) : Type ℓ where
  ok : A → Result A
  fatal : Result A
  exited : Result A
  fault : Result A
  out_of_fuel : Result A

abbrev pub M : Os → Type 0 → Type 0
M O A = State O → Result (A × State O)

abbrev pub bind_result :
    {O : Os} {A B : Type 0} → Result (A × State O) → (A → M O B) → Result (B × State O)
bind_result (ok (a, st)) f = f a st
bind_result fatal f = fatal
bind_result exited f = exited
bind_result fault f = fault
bind_result out_of_fuel f = out_of_fuel

infixl 5 ◌>>=◌ ◌>>◌
abbrev pub ◌>>=◌ : {O : Os} {A B : Type 0} → M O A → (A → M O B) → M O B
◌>>=◌ m f st = bind_result (m st) f

abbrev pub ◌>>◌ : {O : Os} {B : Type 0} → M O (Unit {0}) → M O B → M O B
◌>>◌ m k st = bind_result (m st) (λ _. k)

abbrev pub return : {O : Os} {A : Type 0} → A → M O A
return a st = ok (a, st)

abbrev pub update : (ℕ → Option Socket) → ℕ → Option Socket → ℕ → Option Socket
update h p v q = if q == p then v else h q

abbrev pub found_cell : {O : Os} → Option Socket → State O → Result (Socket × State O)
found_cell none st = fault
found_cell (some s) st = ok (s, st)

abbrev pub load : {O : Os} → ℕ → M O Socket
load p st = found_cell (st.heap p) st

-- A write to a field of the socket at `p`.
abbrev pub store : {O : Os} → ℕ → Socket → M O (Unit {0})
store p s st = ok (tt, record st { heap = update st.heap p (some s) })

abbrev pub free : {O : Os} → ℕ → M O (Unit {0})
free p st = ok (tt, record st { heap = update st.heap p none })

abbrev pub emit : {O : Os} → ℕ → Packet → M O (Unit {0})
emit t p st = ok (tt, record st { sent = st.sent ++ ((t, p) ∷ []) })

unfoldable pub member : ℕ → List ℕ → Bool
member p [] = false
member p (q ∷ l) = p == q || member p l

unfoldable pub erase : ℕ → List ℕ → List ℕ
erase p [] = []
erase p (q ∷ l) = if q == p then erase p l else q ∷ erase p l
