-- ===== src/Tests/Serials.antt =====
-- Runs of unhex and skip_host_serial.
use adb_src.Base.{has_prefix, some, ◌≡◌, arith, refl, codes}
use adb_src.Io.Hex.{format_04x}
use adb_src.Socket.Serial.{
  unhex, skip_host_serial, find_byte, skip_port, skip_address, skip_scheme, skip_digits,
}
use adb_src.Socket.Serial.Host.{unhex-format_04x, PointsAtColon, skip_host_serial-PointsAtColon}

unhex-format_04x_example : unhex (format_04x 4660) 4 ≡ 4660
unhex-format_04x_example = unhex-format_04x 4660 (omega arith)

with_port : skip_host_serial (codes "tcp:host:5555:shell") ≡ some (codes ":shell")
unfolding skip_host_serial find_byte skip_port skip_address skip_scheme skip_digits has_prefix
with_port = refl

skip_host_serial-PointsAtColon_example :
    PointsAtColon (codes "tcp:host:5555:shell") (codes ":shell")
skip_host_serial-PointsAtColon_example =
    skip_host_serial-PointsAtColon (codes "tcp:host:5555:shell") (codes ":shell") with_port
