-- ===== src/Qik/State.antt =====
-- The constants and the globals of MotorDriver/Qik2s9v1.c, with the serial port it writes to.
use telebra.Base.{ℕ, Bool, false, List, [], Bytes, replicate, Outcome}

-- `QikCommand_t`
pub data QikCommand : Type 0 where
  get_firmware_version get_error_byte get_config_param set_config_param : QikCommand
  m0_coast m1_coast m0_forward m0_forward_128 m0_reverse m0_reverse_128 : QikCommand
  m1_forward m1_forward_128 m1_reverse m1_reverse_128 : QikCommand

abbrev pub command_code : QikCommand → ℕ
command_code QikCommand.get_firmware_version = 0x01
command_code QikCommand.get_error_byte = 0x02
command_code QikCommand.get_config_param = 0x03
command_code QikCommand.set_config_param = 0x04
command_code QikCommand.m0_coast = 0x06
command_code QikCommand.m1_coast = 0x07
command_code QikCommand.m0_forward = 0x08
command_code QikCommand.m0_forward_128 = 0x09
command_code QikCommand.m0_reverse = 0x0a
command_code QikCommand.m0_reverse_128 = 0x0b
command_code QikCommand.m1_forward = 0x0c
command_code QikCommand.m1_forward_128 = 0x0d
command_code QikCommand.m1_reverse = 0x0e
command_code QikCommand.m1_reverse_128 = 0x0f

-- `config_parameter_t`
pub data ConfigParameter : Type 0 where
  device_id pwm_parameter shutdown_motor_on_error serial_timeout : ConfigParameter

abbrev pub parameter_code : ConfigParameter → ℕ
parameter_code ConfigParameter.device_id = 0
parameter_code ConfigParameter.pwm_parameter = 1
parameter_code ConfigParameter.shutdown_motor_on_error = 2
parameter_code ConfigParameter.serial_timeout = 3

abbrev pub default_device_id : ℕ
default_device_id = 0x09

abbrev pub start_byte : ℕ
start_byte = 0xaa

abbrev pub cmd_timeout_usec : ℕ
cmd_timeout_usec = 100000

abbrev pub motor_timeout : ℕ
motor_timeout = 2000000

abbrev pub qik_action_queue_size : ℕ
qik_action_queue_size = 1024

-- A line that `processResponse` prints, with the response byte in it.
pub data Report : Type 0 where
  firmware_version error_byte configuration_param set_configuration_param : ℕ → Report

-- The globals. `mutex` is true while `qikMutex` is held; `port_open` says that
-- `SerialPortFileDescrptor` is not -1; `wire` holds the buffers given to `write`, the first one
-- first; `console` what was printed; `moment` counts the calls of `gettimeofday` so far.
pub record Qik : Type 0 where
  pub queue : Bytes
  pub head : ℕ
  pub tail : ℕ
  pub mutex : Bool
  pub pending_cmd : ℕ
  pub cmd_sent_timestamp : ℕ
  pub motor_shutoff_time : ℕ
  pub moment : ℕ
  pub port_open : Bool
  pub wire : List Bytes
  pub console : List Report

-- The globals before `main`.
abbrev pub initial : Qik
initial = record {
  queue = replicate 1024 0;
  head = 0;
  tail = 0;
  mutex = false;
  pending_cmd = 0;
  cmd_sent_timestamp = 0;
  motor_shutoff_time = 0;
  moment = 0;
  port_open = false;
  wire = [];
  console = [];
}

abbrev pub M : Type 0 → Type 0
M A = Qik → Outcome Qik A
