-- ===== src/Qik/Motor/Kept.antt =====
-- What queueing a motor command keeps of the driver's state, every content of a request keeps.
use telebra.Base.{
  ℕ, ◌<◌, ◌≡◌, false, inl, inr, arith, [], ◌∷◌, Bytes, length, codes, some, Option-cases, ignore,
  Any, Keeps, Keeps-if, Keeps-then, Keeps-returned, All,
}
use telebra.Libc.{c_str, str_eq, strtok}
use telebra.Qik.State.{Qik}
use telebra.Qik.Queue.{queue_qik_command}
use telebra.Qik.Commands.{set_m0_forward, set_m0_reverse, set_m1_forward, set_m1_reverse}
use telebra.Qik.Commands.Protocol.{Wheel, decode, decode-messages}
use telebra.Qik.Motor.{drive, motor_action, motor_tokens, process_motor_control}

-- A motor command for the controller.
abbrev pub IsOrder : Bytes → Type 0
IsOrder buf = (w : Wheel) × (decode 9 buf ≡ some w)

pub IsOrder-bytes : (buf : Bytes) → IsOrder buf → All (λ b. b < 256) buf × (length buf ≡ 4)
IsOrder-bytes (a ∷ d ∷ c ∷ v ∷ []) (w, e) = ground arith
IsOrder-bytes _ (w, e) = cc

module _ (P : Qik → Type 0)
    (queue : (buf : Bytes) → IsOrder buf → Keeps P Any (ignore (queue_qik_command buf false))) where
  pub set_m0_forward-Keeps : (speed : ℕ) → speed < 256 → Keeps P Any (set_m0_forward 9 speed)
  unfolding set_m0_forward
  set_m0_forward-Keeps speed h = queue _ (_, (decode-messages 9 speed h).0)

  set_m0_reverse-Keeps : (speed : ℕ) → speed < 256 → Keeps P Any (set_m0_reverse 9 speed)
  unfolding set_m0_reverse
  set_m0_reverse-Keeps speed h = queue _ (_, (decode-messages 9 speed h).1)

  pub set_m1_forward-Keeps : (speed : ℕ) → speed < 256 → Keeps P Any (set_m1_forward 9 speed)
  unfolding set_m1_forward
  set_m1_forward-Keeps speed h = queue _ (_, (decode-messages 9 speed h).2)

  set_m1_reverse-Keeps : (speed : ℕ) → speed < 256 → Keeps P Any (set_m1_reverse 9 speed)
  unfolding set_m1_reverse
  set_m1_reverse-Keeps speed h = queue _ (_, (decode-messages 9 speed h).3)

  drive-Keeps : (dir : Bytes) (speed : ℕ) → speed < 256 → Keeps P Any (drive dir speed)
  unfolding drive
  drive-Keeps dir speed h =
      Keeps-if (str_eq dir (codes "UP")) _ _
        (Keeps-then Any _ _ (set_m0_forward-Keeps speed h) (set_m1_forward-Keeps speed h))
        (Keeps-if (str_eq dir (codes "DOWN")) _ _
          (Keeps-then Any _ _ (set_m0_reverse-Keeps speed h) (set_m1_reverse-Keeps speed h))
          (Keeps-if (str_eq dir (codes "LEFT")) _ _
            (Keeps-then Any _ _ (set_m0_forward-Keeps speed h) (set_m1_reverse-Keeps speed h))
            (Keeps-if (str_eq dir (codes "RIGHT")) _ _
              (Keeps-then Any _ _ (set_m0_reverse-Keeps speed h) (set_m1_forward-Keeps speed h))
              (Keeps-returned Any tt tt))))

  motor_action-Keeps : (dir start : Bytes) → Keeps P Any (motor_action dir start)
  unfolding motor_action
  motor_action-Keeps dir start =
      Keeps-if (str_eq start (codes "START")) _ _ (drive-Keeps dir 0xff (omega arith)) (
        Keeps-if (str_eq start (codes "STOP")) _ _ (drive-Keeps dir 0 (omega arith))
          (Keeps-returned Any tt tt))

  motor_tokens-Keeps : (content : Bytes) → Keeps P Any (motor_tokens content)
  unfolding motor_tokens
  motor_tokens-Keeps content = record {
    at = λ s t. elim (Option-cases (strtok b'_' content)) [
      | inl e ↦ rw (e, motor_tokens) t
      | inr (p, e) ↦ elim (Option-cases (strtok b'_' p.1)) [
        | inl f ↦ rw (e, f, motor_tokens) t
        | inr (q, f) ↦ rw (e, f, motor_tokens) ((motor_action-Keeps p.0 q.0).at s t)
      ]
    ];
  }

  pub process_motor_control-Keeps : (content : Bytes) → Keeps P Any (process_motor_control content)
  unfolding process_motor_control
  process_motor_control-Keeps content = record {
    at = λ s t. elim (Option-cases (c_str content)) [
      | inl e ↦ rw (e, process_motor_control) t
      | inr (text, e) ↦ rw (e, process_motor_control) ((motor_tokens-Keeps text).at s t)
    ];
  }
