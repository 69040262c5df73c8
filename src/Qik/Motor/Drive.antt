-- ===== src/Qik/Motor/Drive.antt =====
-- What a well-formed request to motor_control.c makes the motors do.
use telebra.Base.{
  ℕ, ◌+◌, ◌<◌, ◌≡◌, refl, ◌∙◌, Bool, true, false, some, List, [], ◌∷◌, ◌++◌, arith, Bytes, length,
  codes, Outcome, returned, ◌>>◌, ignore,
}
use telebra.Libc.{c_str, str_eq, strtok}
use telebra.Qik.State.{Qik}
use telebra.Qik.Queue.{queue_qik_command}
use telebra.Qik.Queue.Fifo.{Frame, encode_all, Queues}
use telebra.Qik.Commands.{
  m0_forward_message, m0_reverse_message, m1_forward_message, m1_reverse_message, set_m0_forward,
  set_m0_reverse, set_m1_forward, set_m1_reverse,
}
use telebra.Qik.Commands.Protocol.{decode}
use telebra.Qik.Commands.Laws.{frame, Apart, queue_two}
use telebra.Qik.Motor.{drive, motor_action, motor_tokens, process_motor_control}

pub data Direction : Type 0 where
  up down left right : Direction

-- The words of the web page.
abbrev pub direction_word : Direction → Bytes
direction_word up = codes "UP"
direction_word down = codes "DOWN"
direction_word left = codes "LEFT"
direction_word right = codes "RIGHT"

abbrev pub action_word : Bool → Bytes
action_word true = codes "START"
action_word false = codes "STOP"

abbrev pub action_speed : Bool → ℕ
action_speed true = 255
action_speed false = 0

-- Which motors turn forward: motor 0, then motor 1.
abbrev pub turns_forward : Direction → Bool × Bool
turns_forward up = (true, true)
turns_forward down = (false, false)
turns_forward left = (true, false)
turns_forward right = (false, true)

abbrev pub messages : Direction → ℕ → Bytes × Bytes
messages up v = (m0_forward_message 9 v, m1_forward_message 9 v)
messages down v = (m0_reverse_message 9 v, m1_reverse_message 9 v)
messages left v = (m0_forward_message 9 v, m1_reverse_message 9 v)
messages right v = (m0_reverse_message 9 v, m1_forward_message 9 v)

abbrev queue_both : Bytes × Bytes → Qik → Outcome Qik (Unit {0})
queue_both (a, b) = ignore (queue_qik_command a false) >> ignore (queue_qik_command b false)

-- The text that the page sends, in a buffer.
abbrev pub request : Direction → Bool → Bytes → Bytes
request d go rest = direction_word d ++ b'_' ∷ (action_word go ++ 0 ∷ rest)

runs :
    (d : Direction) (go : Bool) (rest : Bytes) (s : Qik)
    → process_motor_control (request d go rest) s ≡ queue_both (messages d (action_speed go)) s
unfolding process_motor_control motor_tokens motor_action drive set_m0_forward set_m0_reverse
    set_m1_forward set_m1_reverse str_eq strtok c_str
runs up true rest s = refl
runs up false rest s = refl
runs down true rest s = refl
runs down false rest s = refl
runs left true rest s = refl
runs left false rest s = refl
runs right true rest s = refl
runs right false rest s = refl

pub messages-decode :
    (d : Direction) (go : Bool)
    → let (a, b) = messages d (action_speed go) in
      (decode 9 a
        ≡ some (record { motor = 0; forward = (turns_forward d).0; speed = action_speed go }))
      × (decode 9 b
          ≡ some (record { motor = 1; forward = (turns_forward d).1; speed = action_speed go }))
      × (length a ≡ 4)
      × (length b ≡ 4)
messages-decode up true = (refl, refl, refl, refl)
messages-decode up false = (refl, refl, refl, refl)
messages-decode down true = (refl, refl, refl, refl)
messages-decode down false = (refl, refl, refl, refl)
messages-decode left true = (refl, refl, refl, refl)
messages-decode left false = (refl, refl, refl, refl)
messages-decode right true = (refl, refl, refl, refl)
messages-decode right false = (refl, refl, refl, refl)

-- A request UP, DOWN, LEFT or RIGHT with START or STOP, whatever follows it in the buffer, queues
-- behind what is queued exactly two commands, which the controller reads as motor 0 and motor 1
-- turning in that direction's sense at full speed or at none. It needs a free mutex and 12 bytes of
-- room; the mutex is free again afterwards, and all but the queue is as before.
pub process_motor_control-drives :
    (d : Direction) (go : Bool) (rest : Bytes) (s : Qik) (fs : List Frame)
    → Queues s fs
    → s.mutex ≡ false
    → length (encode_all fs) + 12 < 1024
    → (t : Qik) × (a : Bytes) × (b : Bytes) × (process_motor_control (request d go rest) s
        ≡ returned tt t)
      × (decode 9 a
          ≡ some (record { motor = 0; forward = (turns_forward d).0; speed = action_speed go }))
      × (decode 9 b
          ≡ some (record { motor = 1; forward = (turns_forward d).1; speed = action_speed go }))
      × Queues t (fs ++ frame a false ∷ frame b false ∷ [])
      × (t.mutex ≡ false)
      × Apart s t
process_motor_control-drives d go rest s fs q free fits =
    let (da, db, la, lb) = messages-decode d go in
    let (a, b) = messages d (action_speed go) in
    let (t, run, queued, free', apart) =
      queue_two a b s fs q free (omega arith) (omega arith) (omega arith) in
    (t, a, b, runs d go rest s ∙ run, da, db, queued, free', apart)
