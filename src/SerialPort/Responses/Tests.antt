-- ===== src/SerialPort/Responses/Tests.antt =====
-- The theorem on responses at a concrete read.
use telebra.Base.{◌≡◌, refl, [], ◌∷◌}
use telebra.Qik.State.{QikCommand, Report, initial, Qik}
use telebra.SerialPort.{read_serial}
use telebra.SerialPort.Responses.{read_serial_pending}

abbrev asked : Qik
asked = record initial { pending_cmd = 2 }

read_serial_pending_example :
    read_serial (7 ∷ []) (read_serial (16 ∷ 3 ∷ []) asked)
    ≡ record initial { console = Report.error_byte 16 ∷ [] }
read_serial_pending_example =
    read_serial_pending QikCommand.get_error_byte 16 (3 ∷ []) (7 ∷ []) asked refl
