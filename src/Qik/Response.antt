-- ===== src/Qik/Response.antt =====
-- `processResponse`.
use telebra.Base.{ℕ, List, [], ◌∷◌, ◌++◌, ◌==◌, if◌then◌else◌}
use telebra.Qik.State.{Qik, QikCommand, command_code, Report}

-- The line that the switch on `pendingCmd` prints, if any.
unfoldable pub report : ℕ → ℕ → List Report
report pending byte =
    if pending == command_code QikCommand.get_firmware_version
    then Report.firmware_version byte ∷ []
    else if pending == command_code QikCommand.get_error_byte
    then Report.error_byte byte ∷ []
    else if pending == command_code QikCommand.get_config_param
    then Report.configuration_param byte ∷ []
    else if pending == command_code QikCommand.set_config_param
    then Report.set_configuration_param byte ∷ []
    else []

unfoldable pub process_response : ℕ → Qik → Qik
process_response byte s = record s {
  console = s.console ++ report s.pending_cmd byte;
  pending_cmd = 0;
}
