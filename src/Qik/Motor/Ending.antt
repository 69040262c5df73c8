-- ===== src/Qik/Motor/Ending.antt =====
-- A motor request never loops.
use telebra.Base.{
  ℕ, ◌+◌, refl, inl, inr, Bool, false, Bytes, length, ltb, codes, ◌>>◌, ignore, Option-cases, Halts,
  if-Halts, if_run-Halts, >>=-Halts, ignore-Halts,
}
use telebra.Libc.{c_str, str_eq, strtok}
use telebra.Qik.State.{Qik}
use telebra.Qik.Queue.{queue_qik_command, size_used}
use telebra.Qik.Commands.{set_m0_forward, set_m0_reverse, set_m1_forward, set_m1_reverse}
use telebra.Qik.Motor.{drive, motor_action, motor_tokens, process_motor_control}

pub queue_qik_command-Halts : (buf : Bytes) (e : Bool) (s : Qik) → Halts (queue_qik_command buf e s)
unfolding queue_qik_command
queue_qik_command-Halts buf e s =
    if-Halts s.mutex _ _ refl (if-Halts (ltb (size_used s + length buf + 2) 1024) _ _ refl refl)

both-Halts :
    (a b : Bytes) (s : Qik)
    → Halts ((ignore (queue_qik_command a false) >> ignore (queue_qik_command b false)) s)
both-Halts a b s =
    >>=-Halts (ignore (queue_qik_command a false)) (λ _. ignore (queue_qik_command b false)) s
      (ignore-Halts (queue_qik_command a false) s (queue_qik_command-Halts a false s))
      (λ _ t. ignore-Halts (queue_qik_command b false) t (queue_qik_command-Halts b false t))

drive-Halts : (dir : Bytes) (speed : ℕ) (s : Qik) → Halts (drive dir speed s)
unfolding drive set_m0_forward set_m0_reverse set_m1_forward set_m1_reverse
drive-Halts dir speed s = if_run-Halts (str_eq dir (codes "UP")) _ _ s (both-Halts _ _ s) (
    if_run-Halts (str_eq dir (codes "DOWN")) _ _ s (both-Halts _ _ s) (
      if_run-Halts (str_eq dir (codes "LEFT")) _ _ s (both-Halts _ _ s)
        (if_run-Halts (str_eq dir (codes "RIGHT")) _ _ s (both-Halts _ _ s) refl)))

motor_action-Halts : (dir start : Bytes) (s : Qik) → Halts (motor_action dir start s)
unfolding motor_action
motor_action-Halts dir start s =
    if_run-Halts (str_eq start (codes "START")) _ _ s (drive-Halts dir 0xff s)
      (if_run-Halts (str_eq start (codes "STOP")) _ _ s (drive-Halts dir 0 s) refl)

motor_tokens-Halts : (content : Bytes) (s : Qik) → Halts (motor_tokens content s)
unfolding motor_tokens
motor_tokens-Halts content s = elim (Option-cases (strtok b'_' content)) [
  | inl e ↦ rw (e, motor_tokens) refl
  | inr (p, e) ↦ elim (Option-cases (strtok b'_' p.1)) [
    | inl f ↦ rw (e, f, motor_tokens) refl
    | inr (q, f) ↦ rw (e, f, motor_tokens) (motor_action-Halts p.0 q.0 s)
  ]
]

pub process_motor_control-Halts :
    (content : Bytes) (s : Qik) → Halts (process_motor_control content s)
unfolding process_motor_control
process_motor_control-Halts content s = elim (Option-cases (c_str content)) [
  | inl e ↦ rw (e, process_motor_control) refl
  | inr (text, e) ↦ rw (e, process_motor_control) (motor_tokens-Halts text s)
]
