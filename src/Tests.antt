-- ===== src/Tests.antt =====
-- Every result at a concrete run. Stream holds the descriptors that the runs use, Wire the runs
-- over adb_io.cpp and the packets, Sockets those over sockets.cpp, Transports those over the choice
-- of a transport, Loop those of the event loop, Quoting those of escape_arg, Serials those of unhex
-- and skip_host_serial, Listening those of the listeners,
-- Lives those of a transport and its threads, Sessions those of a host,
-- Reading those of the read half of the event function, Registering those of the lists of transports.
mod Stream
mod Wire
mod Sockets
mod Transports
mod Loop
mod Quoting
mod Serials
mod Listening
mod Lives
mod Sessions
mod Reading
mod Registering
