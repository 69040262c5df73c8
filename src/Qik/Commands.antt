-- ===== src/Qik/Commands.antt =====
-- The functions of MotorDriver/Qik2s9v1.c that build one command and queue it.
pub mod Laws
pub mod Batch
pub mod Protocol
use telebra.Base.{
  ℕ, ◌+◌, ◌-◌, ◌%◌, Bool, true, false, [], ◌∷◌, ltb, if◌then◌else◌, Bytes, ignore, Outcome,
}
use telebra.Qik.State.{M, QikCommand, command_code, ConfigParameter, parameter_code, start_byte}
use telebra.Qik.Queue.{queue_qik_command}

-- The messages. `msg` starts with the autobaud byte, the device and the command.
abbrev pub message : ℕ → QikCommand → Bytes → Bytes
message device c rest = start_byte ∷ device ∷ command_code c ∷ rest

unfoldable pub get_firmware_version : ℕ → M (Unit {0})
get_firmware_version device =
    ignore (queue_qik_command (message device QikCommand.get_firmware_version []) true)

unfoldable pub get_error_byte : ℕ → M (Unit {0})
get_error_byte device =
    ignore (queue_qik_command (message device QikCommand.get_error_byte []) true)

unfoldable pub get_configuration_parameter : ℕ → ConfigParameter → M (Unit {0})
get_configuration_parameter device parameter = ignore (
    queue_qik_command (message device QikCommand.get_config_param (parameter_code parameter ∷ []))
      true)

unfoldable pub set_configuration_parameter : ℕ → ConfigParameter → ℕ → M (Unit {0})
set_configuration_parameter device parameter val = ignore (
    queue_qik_command
      (message device QikCommand.set_config_param
        (parameter_code parameter ∷ val ∷ 0x55 ∷ 0x2a ∷ []))
      true)

unfoldable pub set_m0_coast : ℕ → M (Unit {0})
set_m0_coast device = ignore (queue_qik_command (message device QikCommand.m0_coast []) false)

unfoldable pub set_m1_coast : ℕ → M (Unit {0})
set_m1_coast device = ignore (queue_qik_command (message device QikCommand.m1_coast []) false)

-- The message of `setM0Forward`; `speed` is a `uint8_t`.
abbrev pub m0_forward_message : ℕ → ℕ → Bytes
m0_forward_message device speed =
    if ltb 127 speed
    then message device QikCommand.m0_forward_128 ((speed - 128) ∷ [])
    else message device QikCommand.m0_forward (speed ∷ [])

unfoldable pub set_m0_forward : ℕ → ℕ → M (Unit {0})
set_m0_forward device speed = ignore (queue_qik_command (m0_forward_message device speed) false)

abbrev pub m0_reverse_message : ℕ → ℕ → Bytes
m0_reverse_message device speed =
    if ltb 127 speed
    then message device QikCommand.m0_reverse_128 ((speed - 128) ∷ [])
    else message device QikCommand.m0_reverse (speed ∷ [])

unfoldable pub set_m0_reverse : ℕ → ℕ → M (Unit {0})
set_m0_reverse device speed = ignore (queue_qik_command (m0_reverse_message device speed) false)

abbrev pub m1_forward_message : ℕ → ℕ → Bytes
m1_forward_message device speed =
    if ltb 127 speed
    then message device QikCommand.m1_forward_128 ((speed - 128) ∷ [])
    else message device QikCommand.m1_forward (speed ∷ [])

unfoldable pub set_m1_forward : ℕ → ℕ → M (Unit {0})
set_m1_forward device speed = ignore (queue_qik_command (m1_forward_message device speed) false)

abbrev pub m1_reverse_message : ℕ → ℕ → Bytes
m1_reverse_message device speed =
    if ltb 127 speed
    then message device QikCommand.m1_reverse_128 ((speed - 128) ∷ [])
    else message device QikCommand.m1_reverse (speed ∷ [])

unfoldable pub set_m1_reverse : ℕ → ℕ → M (Unit {0})
set_m1_reverse device speed = ignore (queue_qik_command (m1_reverse_message device speed) false)
