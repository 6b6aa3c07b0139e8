-- ===== src/Fdevent.antt =====
-- The event loop of fdevent.cpp. An `fdevent` is a cell of a heap, as in a C struct that its owner
-- allocates; the masks of `state` are Boolean fields. The low byte of `state`, the mask of events,
-- also holds FDE_DONT_CLOSE, so `Flags` has it. g_poll_node_map is a function from descriptors;
-- g_pending_list the list of its members, in order. The callback, `force_eof` and the run queue
-- are left out. `none` is a CHECK that fails, or a read through a dangling pointer.
pub mod Pending
pub mod Keep
pub mod Want
use adb_src.Base.{
  ℕ, Bool, true, false, not, ◌&&◌, ◌||◌, Option, none, some, List, [], ◌∷◌, ◌++◌, ◌==◌,
  if◌then◌else◌,
}
use adb_src.Socket.Store.{erase}

pub record Flags : Type 0 where
  pub read : Bool
  pub write : Bool
  pub error : Bool
  pub dont_close : Bool

abbrev pub no_flags : Flags
no_flags = record { read = false; write = false; error = false; dont_close = false }

-- `a & b`, `a | b` and `a & ~b`.
abbrev pub both_flags : Flags → Flags → Flags
both_flags a b = record {
  read = a.read && b.read;
  write = a.write && b.write;
  error = a.error && b.error;
  dont_close = a.dont_close && b.dont_close;
}

abbrev pub either_flags : Flags → Flags → Flags
either_flags a b = record {
  read = a.read || b.read;
  write = a.write || b.write;
  error = a.error || b.error;
  dont_close = a.dont_close || b.dont_close;
}

abbrev pub less_flags : Flags → Flags → Flags
less_flags a b = record {
  read = a.read && not b.read;
  write = a.write && not b.write;
  error = a.error && not b.error;
  dont_close = a.dont_close && not b.dont_close;
}

abbrev pub same_bool : Bool → Bool → Bool
same_bool true b = b
same_bool false b = not b

abbrev pub same_flags : Flags → Flags → Bool
same_flags a b =
    same_bool a.read b.read
    && same_bool a.write b.write
    && same_bool a.error b.error
    && same_bool a.dont_close b.dont_close

abbrev pub any_flag : Flags → Bool
any_flag a = a.read || a.write || a.error || a.dont_close

-- `fd` is `none` for -1.
pub record Fdevent : Type 0 where
  pub fd : Option ℕ
  pub active : Bool
  pub pending : Bool
  pub created : Bool
  pub flags : Flags
  pub events : Flags

-- `poll_in` and `poll_out` are the bits of `pollfd.events` that change.
pub record PollNode : Type 0 where
  pub fde : ℕ
  pub poll_in : Bool
  pub poll_out : Bool

pub record Loop : Type 0 where
  pub fdes : ℕ → Option Fdevent
  pub poll_node_map : ℕ → Option PollNode
  pub pending_list : List ℕ
  pub closed_fds : List ℕ

abbrev pub put {ℓ} : {A : Type ℓ} → (ℕ → Option A) → ℕ → Option A → ℕ → Option A
put h p v q = if q == p then v else h q

abbrev pub node_at : Loop → Option ℕ → Option PollNode
node_at st none = none
node_at st (some d) = st.poll_node_map d

abbrev pub put_node : (ℕ → Option PollNode) → Option ℕ → Option PollNode → ℕ → Option PollNode
put_node h none v = h
put_node h (some d) v = put h d v

-- The object of an install: all zero but for the state and the descriptor.
abbrev pub installed : ℕ → Fdevent
installed fd = record {
  fd = some fd;
  active = true;
  pending = false;
  created = false;
  flags = no_flags;
  events = no_flags;
}

-- A descriptor that is in the map already fails a CHECK.
unfoldable pub install_at : ℕ → ℕ → Option PollNode → Loop → Option Loop
install_at p fd (some node) st = none
install_at p fd none st = some (record st {
  fdes = put st.fdes p (some (installed fd));
  poll_node_map =
      put st.poll_node_map fd (some (record { fde = p; poll_in = false; poll_out = false }));
})

unfoldable pub fdevent_install : ℕ → ℕ → Loop → Option Loop
unfolding install_at
fdevent_install p fd st = install_at p fd (st.poll_node_map fd) st

abbrev pub close_unless_kept : Fdevent → List ℕ → List ℕ
close_unless_kept f closed = if f.flags.dont_close then closed else add f.fd
  where
    add : Option ℕ → List ℕ
    add none = closed
    add (some d) = closed ++ (d ∷ [])

-- `fd` becomes -1 only where it is closed.
abbrev pub removed : Fdevent → Fdevent
removed f = record f {
  fd = if f.flags.dont_close then f.fd else none;
  active = false;
  pending = false;
  created = false;
  flags = no_flags;
  events = no_flags;
}

unfoldable pub remove_found : ℕ → Option Fdevent → Loop → Option Loop
remove_found p none st = none
remove_found p (some f) st =
    if f.active
    then some (record {
      fdes = put st.fdes p (some (removed f));
      poll_node_map = put_node st.poll_node_map f.fd none;
      pending_list = if f.pending then erase p st.pending_list else st.pending_list;
      closed_fds = close_unless_kept f st.closed_fds;
    })
    else some st

unfoldable pub fdevent_remove : ℕ → Loop → Option Loop
unfolding remove_found
fdevent_remove p st = remove_found p (st.fdes p) st

-- The end of fdevent_set, by whether the object is pending and has an event left that is wanted.
unfoldable pub trim_by : Bool → Bool → ℕ → Flags → Fdevent → Loop → Loop
trim_by false some_left p left f st = record st { fdes = put st.fdes p (some f) }
trim_by true true p left f st = record st {
  fdes = put st.fdes p (some (record f { events = left }));
}
trim_by true false p left f st = record st {
  fdes = put st.fdes p (some (record f { events = left; pending = false }));
  pending_list = erase p st.pending_list;
}

unfoldable pub trim_pending : ℕ → Flags → Fdevent → Loop → Loop
unfolding trim_by
trim_pending p events f st =
    let left = both_flags f.events events in trim_by f.pending (any_flag left) p left f st

-- fdevent_update for the node of the descriptor, then the rest of fdevent_set.
unfoldable pub update_node : ℕ → Flags → Fdevent → Option PollNode → Loop → Option Loop
unfolding trim_pending
update_node p events f none st = none
update_node p events f (some node) st = some (
    trim_pending p events (record f { flags = events })
      (record st {
        poll_node_map =
            put_node st.poll_node_map f.fd
              (some (record node { poll_in = events.read; poll_out = events.write }));
      }))

-- By whether the events are the old ones, and whether the object is active.
unfoldable pub set_by : Bool → Bool → ℕ → Flags → Fdevent → Loop → Option Loop
unfolding update_node
set_by true active p events f st = some st
set_by false false p events f st = none
set_by false true p events f st = update_node p events f (node_at st f.fd) st

unfoldable pub set_found : ℕ → Flags → Option Fdevent → Loop → Option Loop
unfolding set_by
set_found p events none st = none
set_found p events (some f) st = set_by (same_flags f.flags events) f.active p events f st

unfoldable pub fdevent_set : ℕ → Flags → Loop → Option Loop
unfolding set_found
fdevent_set p events st = set_found p events (st.fdes p) st

abbrev pub flags_of : Option Fdevent → Flags
flags_of none = no_flags
flags_of (some f) = f.flags

unfoldable pub fdevent_add : ℕ → Flags → Loop → Option Loop
unfolding fdevent_set
fdevent_add p events st = fdevent_set p (either_flags (flags_of (st.fdes p)) events) st

unfoldable pub fdevent_del : ℕ → Flags → Loop → Option Loop
unfolding fdevent_set
fdevent_del p events st = fdevent_set p (less_flags (flags_of (st.fdes p)) events) st

-- What poll says of one descriptor.
pub record Revents : Type 0 where
  pub pollin : Bool
  pub pollout : Bool
  pub pollerr : Bool
  pub pollhup : Bool
  pub pollnval : Bool
  pub pollrdhup : Bool

-- The events of the descriptor, on Linux; an error is a read as well.
abbrev pub events_of : Revents → Flags
events_of r =
    let broken = r.pollerr || r.pollhup || r.pollnval || r.pollrdhup in
    record { read = r.pollin || broken; write = r.pollout; error = broken; dont_close = false }

abbrev pub is_fd : Option ℕ → ℕ → Bool
is_fd none d = false
is_fd (some c) d = c == d

unfoldable pub mark_pending : ℕ → ℕ → Flags → Option Fdevent → Loop → Option Loop
mark_pending p d events none st = none
mark_pending p d events (some f) st =
    if is_fd f.fd d
    then some (record st {
      fdes =
          put st.fdes p (some (record f { events = either_flags f.events events; pending = true }));
      pending_list = st.pending_list ++ (p ∷ []);
    })
    else none

unfoldable pub signal_node : ℕ → Flags → Option PollNode → Loop → Option Loop
unfolding mark_pending
signal_node d events none st = none
signal_node d events (some node) st = mark_pending node.fde d events (st.fdes node.fde) st

-- One turn of the loop of fdevent_process over what poll returned.
unfoldable pub signal_fd : ℕ → Revents → Loop → Option Loop
unfolding signal_node
signal_fd d r st =
    if any_flag (events_of r) then signal_node d (events_of r) (st.poll_node_map d) st else some st

unfoldable pub call_found : ℕ → Option Fdevent → Loop → Option ((Option ℕ × Flags) × Loop)
call_found p none st = none
call_found p (some f) st =
    if f.pending
    then some (
      (f.fd, f.events),
      record st { fdes = put st.fdes p (some (record f { events = no_flags; pending = false })) },
    )
    else none

-- fdevent_call_fdfunc up to the callback, whose arguments it returns.
unfoldable pub fdevent_call_fdfunc : ℕ → Loop → Option ((Option ℕ × Flags) × Loop)
unfolding call_found
fdevent_call_fdfunc p st = call_found p (st.fdes p) st

-- One turn of the loop of fdevent_loop over the pending list, up to the callback.
unfoldable pub take_pending : List ℕ → Loop → Option ((Option ℕ × Flags) × Loop)
unfolding fdevent_call_fdfunc
take_pending [] st = none
take_pending (p ∷ rest) st = fdevent_call_fdfunc p (record st { pending_list = rest })
