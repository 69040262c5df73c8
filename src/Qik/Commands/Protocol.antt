-- ===== src/Qik/Commands/Protocol.antt =====
-- The controller's reading of the messages, after the comments of MotorDriver/Qik2s9v1.c.
use telebra.Base.{
  ℕ, ◌+◌, ◌<◌, ◌≡◌, Bool, true, false, not, ◌&&◌, Option, none, some, [], ◌∷◌, ◌++◌, arith, ltb,
  ◌==◌, if◌then◌else◌, Bytes,
}
use telebra.Qik.Serial.{starts_motor}
use telebra.Qik.Commands.{
  m0_forward_message, m0_reverse_message, m1_forward_message, m1_reverse_message,
}

-- Motor, direction and speed (0 to 255) of a motor command.
pub record Wheel : Type 0 where
  pub motor : ℕ
  pub forward : Bool
  pub speed : ℕ

-- The Pololu command byte and its data byte, which must be below 128.
abbrev pub wheel_of : ℕ → ℕ → Option Wheel
wheel_of c v =
    if not (ltb v 128)
    then none
    else if c == 0x08
    then some (record { motor = 0; forward = true; speed = v })
    else if c == 0x09
    then some (record { motor = 0; forward = true; speed = v + 128 })
    else if c == 0x0a
    then some (record { motor = 0; forward = false; speed = v })
    else if c == 0x0b
    then some (record { motor = 0; forward = false; speed = v + 128 })
    else if c == 0x0c
    then some (record { motor = 1; forward = true; speed = v })
    else if c == 0x0d
    then some (record { motor = 1; forward = true; speed = v + 128 })
    else if c == 0x0e
    then some (record { motor = 1; forward = false; speed = v })
    else if c == 0x0f
    then some (record { motor = 1; forward = false; speed = v + 128 })
    else none

-- What the device with this number does on a message; others ignore it.
abbrev pub decode : ℕ → Bytes → Option Wheel
decode device (a ∷ d ∷ c ∷ v ∷ []) = if a == 0xaa && d == device then wheel_of c v else none
decode device _ = none

-- Each motor function sends its device a message that asks for exactly its motor, its direction
-- and its speed, over the whole range of a `uint8_t`.
pub decode-messages :
    (device speed : ℕ)
    → speed < 256
    → (decode device (m0_forward_message device speed)
        ≡ some (record { motor = 0; forward = true; speed = speed }))
      × (decode device (m0_reverse_message device speed)
          ≡ some (record { motor = 0; forward = false; speed = speed }))
      × (decode device (m1_forward_message device speed)
          ≡ some (record { motor = 1; forward = true; speed = speed }))
      × (decode device (m1_reverse_message device speed)
          ≡ some (record { motor = 1; forward = false; speed = speed }))
decode-messages device speed h = ground arith

-- `sendCommand` takes a decoded motor command, with any old bytes behind it in the buffer, for one
-- that starts a motor exactly when its speed is not zero.
pub starts_motor-decode :
    (device : ℕ) (msg stale : Bytes) {w : Wheel}
    → decode device msg ≡ some w
    → starts_motor (msg ++ stale) ≡ not (w.speed == 0)
unfolding starts_motor
starts_motor-decode device (a ∷ d ∷ c ∷ v ∷ []) stale e = ground arith
starts_motor-decode device _ stale e = cc
