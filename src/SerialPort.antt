-- ===== src/SerialPort.antt =====
-- MotorDriver/SerialPort.c: what the driver writes to the port, and the thread that reads it.
mod Responses
pub mod Termios
pub mod Setup
use telebra.Base.{[], ◌∷◌, ◌++◌, if◌then◌else◌, Bytes}
use telebra.Qik.State.{Qik}
use telebra.Qik.Response.{process_response}

-- `writeToSerialPort`: nothing is written while the descriptor is -1.
unfoldable pub write_to_serial_port : Bytes → Qik → Qik
write_to_serial_port buf s = record s { wire = if s.port_open then s.wire ++ buf ∷ [] else s.wire }

-- The body of the loop of `readSerial` behind a `read` that returned these bytes.
unfoldable pub read_serial : Bytes → Qik → Qik
read_serial [] s = s
read_serial (b ∷ bs) s = read_serial bs (process_response b s)
