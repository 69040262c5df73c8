-- ===== src/Qik/Motor.antt =====
-- `processMotorControl` of MotorDriver/Qik2s9v1.c.
pub mod Drive
pub mod Refuse
pub mod Ending
pub mod Kept
use telebra.Base.{
  ℕ, Bool, true, false, Option, none, some, [], ◌∷◌, if◌then◌else◌, Bytes, codes, Outcome, returned,
  fault, ◌>>=◌, ◌>>◌,
}
use telebra.Libc.{c_str, str_eq, strtok}
use telebra.Qik.State.{Qik, M, default_device_id}
use telebra.Qik.Commands.{set_m0_forward, set_m0_reverse, set_m1_forward, set_m1_reverse}

-- The chain of tests on `dir`.
unfoldable pub drive : Bytes → ℕ → M (Unit {0})
drive dir speed =
    if str_eq dir (codes "UP")
    then (do set_m0_forward default_device_id speed; set_m1_forward default_device_id speed)
    else if str_eq dir (codes "DOWN")
    then (do set_m0_reverse default_device_id speed; set_m1_reverse default_device_id speed)
    else if str_eq dir (codes "LEFT")
    then (do set_m0_forward default_device_id speed; set_m1_reverse default_device_id speed)
    else if str_eq dir (codes "RIGHT")
    then (do set_m0_reverse default_device_id speed; set_m1_forward default_device_id speed)
    else returned tt

-- The test on `start`, for the two tokens.
unfoldable pub motor_action : Bytes → Bytes → M (Unit {0})
motor_action dir start =
    if str_eq start (codes "START")
    then drive dir 0xff
    else if str_eq start (codes "STOP")
    then drive dir 0
    else returned tt

-- The two calls of `strtok`. A null pointer goes on to `strcmp`, which is a fault.
unfoldable pub motor_tokens : Bytes → M (Unit {0})
motor_tokens content s = elim (strtok b'_' content) [
  | none ↦ fault s
  | some (dir, rest) ↦ elim (strtok b'_' rest) [
    | none ↦ fault s
    | some (start, more) ↦ motor_action dir start s
  ]
]

-- `postContent` is a buffer; one without a NUL is read past its end.
unfoldable pub process_motor_control : Bytes → M (Unit {0})
process_motor_control post_content s = elim (c_str post_content) [
  | none ↦ fault s
  | some content ↦ motor_tokens content s
]
