-- ===== src/Tests/Lives.antt =====
-- An interleaving of the main thread and the threads of one transport.
use adb_src.Base.{true, false, [], refl}
use adb_src.Lifecycle.{
  Life, read_thread, write_thread, action_register, action_remove, failed, registered, registration,
  kick as kick_once, reader_sync, reader_read, reader_offline, kick_transport, close_and_remove,
  unref_from, transport_unref,
}
use adb_src.Lifecycle.Reach.{
  Reach, here, next, register_or_remove, sync, read, offline, write_failed, kick, unref, close,
}
use adb_src.Lifecycle.Alive.{IsSafe, Reach-IsSafe}

-- The remote side fails, the read thread drops its reference first, and the write thread the last.
abbrev shut_down : (l : Life) × Reach (registered false) l
unfolding registration reader_sync reader_read reader_offline kick_transport kick_once
    transport_unref unref_from close_and_remove
shut_down = (
  _,
  next
      (next
        (next
          (next
            (next
              (next
                (next
                  (next
                    (next (next here (register_or_remove action_register [] refl))
                      (sync true refl refl))
                    (read true failed refl refl))
                  (offline true refl refl))
                (kick read_thread refl))
              (write_failed refl))
            (unref read_thread refl refl))
          (kick write_thread refl))
        (unref write_thread refl refl))
      (close write_thread refl),
)

abbrev removed : (l : Life) × Reach (registered false) l
unfolding registration reader_sync reader_read reader_offline kick_transport kick_once
    transport_unref unref_from close_and_remove
removed = (_, next shut_down.1 (register_or_remove action_remove [] refl))

Reach-IsSafe_example : IsSafe removed.0
Reach-IsSafe_example = Reach-IsSafe false removed.0 removed.1
