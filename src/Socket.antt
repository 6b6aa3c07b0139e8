-- ===== src/Socket.antt =====
-- sockets.cpp, in parts: Store is the heap of sockets that the file works on, Registry the local
-- socket lists, Remote the remote sockets, Close the close functions, Queue the packets that wait
-- for a descriptor, Dispatch what handle_packet of adb.cpp does to sockets, Serial the text that
-- smart sockets take apart.
pub mod Store
pub mod Registry
pub mod Remote
pub mod Close
pub mod Queue
pub mod Reading
pub mod Keep
pub mod Dispatch
pub mod Serial
