-- ===== src/Lib.antt =====
-- adb, the Android debug bridge: a server on the host and a daemon on the device that multiplex byte
-- streams over one transport. This library models the core of both.
--
-- Parts. A stream of a client is an `asocket` (sockets.cpp). A local one owns a descriptor, a remote
-- one stands for the other end of a transport, and the two are peers. What arrives for a remote
-- socket becomes an `apacket` (adb.h), which `send_packet` (transport.cpp) stamps and a transport
-- writes (transport_local.cpp); what a transport reads is checked and goes through `handle_packet`
-- (adb.cpp) to the local socket with its id. Descriptors are read and written by adb_io.cpp, which
-- the shell protocol (shell_service_protocol.cpp) uses too.
--
-- Files.
--   Base: shared names, Boolean tests, lists by native length, byte strings.
--   Packet: adb.h and adb.cpp, the packet, its checksum, `send_packet`'s stamp and the checks of
--     transport.cpp; Packet/Wire: remote_read and remote_write of transport_local.cpp;
--     Packet/Checksum: the checksum and the checks.
--   Io: adb_io.cpp, ReadFdExactly and WriteFdExactly; Io/Exact: both against a byte stream; Io/Hex:
--     the C library's %04x and strtoul; Io/Protocol: SendProtocolString, ReadProtocolString,
--     SendOkay, SendFail.
--   ShellProtocol: shell_service.h and shell_service_protocol.cpp; ShellProtocol/Chunks: a packet
--     read in pieces.
--   Socket: sockets.cpp. Store: the heap of sockets, the lists and the error monad; Registry: the
--     lists and ids; Remote: remote sockets and connect_to_remote; Close: the close functions and
--     close_all_sockets; Queue: local_socket_enqueue, the ready functions and the write half of
--     local_socket_event_func; Reading: its read half; Serial: unhex and skip_host_serial; Dispatch: the cases A_OKAY and
--     A_CLSE of handle_packet in adb.cpp; Keep: what keeps the store of sockets well-formed.
--     The children of each hold the proofs.
--   LibBase: what the code takes from libbase and the C++ library, as a record of functions with the
--     laws that their documentation states.
--   Connection: the banner of adb.cpp, and the version, features and payload limit of transport.cpp;
--     Connection/Features, Connection/Banner: what one side reads of the other's banner.
--   Auth: adb_auth_host.cpp and NextKey of transport.cpp; Auth/Order: the order of the keys.
--   Session: handle_packet of adb.cpp on a host, over the sockets, the connections and the
--     listeners; Session/Keep: the invariant over it; Session/Connect: a new connection.
--   Fdevent: fdevent.cpp, the objects, the poll map and the pending list; Fdevent/Pending: their
--     invariant; Fdevent/Keep and Fdevent/Want: the operations that keep it.
--   Transport: acquire_one_transport, qual_match and MatchesTarget of transport.cpp;
--     Transport/Choice: what they choose; Transport/Registry: register_socket_transport with the
--     table of emulators of transport_local.cpp; its children: serials, and a failed registration; Transport/Listing: list_transports;
--     Transport/Listing/Match: that what it prints selects the device.
--   Lifecycle: the threads of a transport in transport.cpp, transport_registration_func, kicking and
--     transport_unref; Lifecycle/Reach: their interleavings; Lifecycle/Alive: what these keep.
--   Listeners: adb_listeners.cpp, removing and disconnecting; Listeners/Lookup: what stays;
--     Listeners/Install: install_listener; Listeners/Install/Map: the map that it updates;
--     Listeners/Smart: close_smartsockets;
--     Listeners/Format: format_listeners.
--   Utils: escape_arg of adb_utils.cpp; Utils/Quote: what the shell reads of its result.
--   Tests: each result at a concrete run.
--
-- State. A pointer to a socket is a number, the address of a cell in a heap; a freed cell is empty,
-- and a read through a null or dangling pointer is the result `fault`. `fatal` and `CHECK` are the
-- result `fatal`, and exit is `exited`. A function pointer of a socket is a data type with a
-- constructor for each function that is installed. A queue or a list of sockets is a list.
--
-- Machine. `adb_read` and `adb_write` are fields of `Reader`, `Writer` and `Os`. `Delivers` and
-- `Accepts` state what read(2) and write(2) document: a non-empty part of the front, or an error.
--
-- Fuel. ReadFdExactly has the bytes wanted, since each read gives one at least. WriteFdExactly has
-- the bytes and the EAGAIN answers still to come, which `stalls` bounds, since the source spins on
-- them. The loop over one packet has its length, and the loop
-- that fills one has the room in it. `close` has four nested calls: a socket, its peer,
-- and one more for each of the two when a close function restores another one. close_all_sockets has
-- one restart for each listed socket and a last pass, as every close takes one off the list.
--
-- Not modelled: the locks. Registration is one step of Lifecycle, though in the source the threads
-- start before the transport is listed, so a kick between the two is not among the steps. Threads
-- elsewhere, since the callers run on the main thread; the CHECKs of fdevent_install in
-- create_local_socket; log output;
-- smart_socket_enqueue; the daemon's side of A_CNXN and
-- A_AUTH, and the clients that track devices;
-- the USB
-- registration and the kicks of all transports; the callbacks and the run queue of fdevent.cpp (a
-- socket has the two event bits of its fdevent as fields, and the event function is modelled by
-- itself); the event functions of adb_listeners.cpp; socket_spec.cpp; the rest of
-- adb_utils.cpp; file sync, JDWP and the other services; the command line; keys; USB and mDNS; the
-- platform layer.
pub mod Base
pub mod Packet
pub mod Io
pub mod ShellProtocol
pub mod Socket
pub mod Fdevent
pub mod Listeners
pub mod Utils
pub mod Transport
pub mod Lifecycle
pub mod LibBase
pub mod Connection
pub mod Auth
pub mod Session
pub mod Tests
