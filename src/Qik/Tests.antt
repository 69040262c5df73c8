-- ===== src/Qik/Tests.antt =====
-- Runs of the driver at concrete inputs, and its theorems at such.
use telebra.Base.{
  ℕ, ◌+◌, ◌≡◌, refl, inl, true, false, some, List, [], ◌∷◌, ◌++◌, arith, Bytes, codes, replicate,
  returned, blocked, fault,
}
use telebra.Qik.State.{Qik, initial}
use telebra.Qik.Queue.{queue_qik_command}
use telebra.Qik.Queue.Spans.{Spans-append}
use telebra.Qik.Queue.Fifo.{Frame, encode_all, Queues, queue_qik_command_refines}
use telebra.Qik.Commands.{
  m0_forward_message, m1_forward_message, m0_reverse_message, m1_reverse_message,
}
use telebra.Qik.Commands.Protocol.{decode, decode-messages}
use telebra.Qik.Commands.Laws.{frame}
use telebra.Qik.Serial.{Moment, get_current_time, starts_motor, send_command, process_qik_state}
use telebra.Qik.Serial.Send.{Sent, send_command-Sent}
use telebra.Qik.Serial.Drain.{Ticks}
use telebra.Qik.Serial.Watchdog.{expired, process_qik_state-Due, process_qik_state_full}
use telebra.Qik.Motor.{process_motor_control}
use telebra.Qik.Motor.Refuse.{process_motor_control_one_token}

-- One second from each reading to the next, and no response.
abbrev seconds : ℕ → Moment
seconds m = record { received = []; tv_sec = m + 1; tv_usec = 0 }

seconds-Ticks : Ticks seconds 1 1000
unfolding get_current_time
seconds-Ticks = record {
  some_spins = omega arith;
  passes = λ j m lt h. (0, omega arith, omega arith);
}

initial-Queues : Queues initial []
initial-Queues = record {
  holds = record {
    size = refl;
    head_in = omega arith;
    tail_in = omega arith;
    room = omega arith;
    spans = refl;
  };
  short = tt;
}

abbrev opened : Qik
opened = record initial { port_open = true }

opened-Queues : Queues opened []
opened-Queues = record {
  holds = record {
    size = refl;
    head_in = omega arith;
    tail_in = omega arith;
    room = omega arith;
    spans = refl;
  };
  short = tt;
}

abbrev ask_error : Bytes
ask_error = 0xaa ∷ 9 ∷ 2 ∷ []

queue_qik_command_refines_example :
    (t : Qik) × (queue_qik_command ask_error true initial ≡ returned 1 t)
    × Queues t (frame ask_error true ∷ [])
    × (t.mutex ≡ false)
queue_qik_command_refines_example =
    queue_qik_command_refines initial [] ask_error true initial-Queues refl (omega arith)

decode-messages_example :
    (decode 9 (m0_forward_message 9 200) ≡ some (record { motor = 0; forward = true; speed = 200 }))
    × (decode 9 (m0_reverse_message 9 200)
        ≡ some (record { motor = 0; forward = false; speed = 200 }))
    × (decode 9 (m1_forward_message 9 200)
        ≡ some (record { motor = 1; forward = true; speed = 200 }))
    × (decode 9 (m1_reverse_message 9 200)
        ≡ some (record { motor = 1; forward = false; speed = 200 }))
decode-messages_example = decode-messages 9 200 (omega arith)

send_command-Sent_example :
    (t : Qik) × (send_command seconds 1 (0xaa ∷ 9 ∷ 0x0c ∷ 50 ∷ []) 4 false opened ≡ returned tt t)
    × Sent seconds 1
        (starts_motor (0xaa ∷ 9 ∷ 0x0c ∷ 50 ∷ []))
        false
        (0xaa ∷ 9 ∷ 0x0c ∷ 50 ∷ [])
        opened
        t
send_command-Sent_example =
    send_command-Sent seconds 1 0 (0xaa ∷ 9 ∷ 0x0c ∷ 50 ∷ []) 4 false opened (omega arith)
      (inl refl)

-- A queue that holds one command, which runs round the end of the ring.
abbrev wrapped_queue : Qik
wrapped_queue = record opened {
  queue = 9 ∷ 2 ∷ (replicate 1019 0 ++ 3 ∷ 1 ∷ 0xaa ∷ []);
  head = 1021;
  tail = 2;
}

process_motor_control_one_token_example :
    process_motor_control (codes "STOP" ++ 0 ∷ []) initial ≡ fault initial
process_motor_control_one_token_example =
    process_motor_control_one_token (codes "STOP") [] initial (omega arith)

-- The motors were started, to be stopped at the time 500000.
abbrev running_motors : Qik
running_motors = record wrapped_queue { motor_shutoff_time = 500000 }

running_motors-Queues : Queues running_motors (frame ask_error true ∷ [])
running_motors-Queues = record {
  holds = record {
    size = refl;
    head_in = omega arith;
    tail_in = omega arith;
    room = omega arith;
    spans = (refl, (refl, (refl, (refl, (refl, refl)))));
  };
  short = omega arith;
}

process_qik_state-Due_example :
    (t : Qik) × (process_qik_state seconds 1 running_motors ≡ returned tt t)
    × Queues t []
    × (t.mutex ≡ false)
    × (t.wire ≡ ask_error ∷ (0xaa ∷ 9 ∷ 8 ∷ 0 ∷ []) ∷ (0xaa ∷ 9 ∷ 0x0c ∷ 0 ∷ []) ∷ [])
    × (decode 9 (0xaa ∷ 9 ∷ 8 ∷ 0 ∷ []) ≡ some (record { motor = 0; forward = true; speed = 0 }))
    × (decode 9 (0xaa ∷ 9 ∷ 0x0c ∷ 0 ∷ []) ≡ some (record { motor = 1; forward = true; speed = 0 }))
unfolding get_current_time
process_qik_state-Due_example =
    process_qik_state-Due seconds 1 1000 (frame ask_error true ∷ []) running_motors (omega arith)
      seconds-Ticks running_motors-Queues (inl refl) refl (omega arith) (omega arith)

abbrev locked_out : Qik
locked_out = record running_motors { mutex = true }

abbrev many : List Frame
many = replicate 170 (frame (0xaa ∷ 9 ∷ 8 ∷ 255 ∷ []) false)

-- 170 motor commands fill 1020 of the 1024 bytes.
abbrev crowded : Qik
crowded = record opened {
  queue = encode_all many ++ (0 ∷ 0 ∷ 0 ∷ 0 ∷ []);
  tail = 1020;
  motor_shutoff_time = 500000;
}

crowded-Queues : Queues crowded many
crowded-Queues = record {
  holds = record {
    size = refl;
    head_in = omega arith;
    tail_in = omega arith;
    room = omega arith;
    spans = Spans-append [] (encode_all many) (0 ∷ 0 ∷ 0 ∷ 0 ∷ []) (omega arith);
  };
  short = omega arith;
}

process_qik_state_full_example :
    (process_qik_state seconds 1 crowded
      ≡ blocked (record (expired seconds crowded) { mutex = true }))
    × ((expired seconds crowded).wire ≡ [])
unfolding get_current_time
process_qik_state_full_example =
    process_qik_state_full seconds 1 crowded many (omega arith) crowded-Queues refl (omega arith)
