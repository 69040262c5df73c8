-- ===== src/Web/Tests/Orders.antt =====
-- The theorems on orders at a concrete request, with an open port.
use telebra.Base.{
  ℕ, ◌+◌, ◌%◌, ◌^◌, ◌<◌, ◌≡◌, refl, inl, true, false, [], ◌∷◌, arith, Bytes, codes, returned,
}
use telebra.Libc.{is_space, str_case_eq, atoi, signed_value, skip_spaces, digits_value}
use telebra.Qik.State.{Qik, initial, motor_timeout}
use telebra.Qik.Queue.Fifo.{Queues}
use telebra.Qik.Motor.Drive.{left}
use telebra.Qik.Serial.{Moment, get_current_time, process_qik_state}
use telebra.Qik.Serial.Drain.{Ticks}
use telebra.Web.State.{Client}
use telebra.Web.GetLine.Headers.{crlf}
use telebra.Web.Cgi.Post.{ok_line}
use telebra.Web.Request.{accept_request}
use telebra.Main.Order.{Orders, Ready, Commands, order-drives}
use telebra.Main.Order.Stop.{Watched, start_order-stops}
use telebra.Web.Tests.{header, page, client, length_header, turn_left}

-- One second passes from one reading of the clock to the next.
abbrev pub seconds : ℕ → Moment
seconds m = record { received = []; tv_sec = m + 1; tv_usec = 0 }

pub seconds-Ticks : Ticks seconds 1 1000
unfolding get_current_time
seconds-Ticks = record {
  some_spins = omega arith;
  passes = λ j m lt h. (0, omega arith, omega arith);
}

abbrev opened : Qik
opened = record initial { port_open = true }

abbrev pub driver : Client
driver = record (client turn_left) { qik = opened }

pub turn_left-Orders : Orders page driver left true []
turn_left-Orders = record {
  version = codes "HTTP/1.1";
  line_end = crlf;
  header = length_header;
  header_end = crlf;
  headers = [];
  blank = crlf;
  request = refl;
  lines = (
    header b'P' (codes "OST /motor_control.c HTTP/1.1") refl refl (omega arith),
    tt,
    (header b'C' (codes "ontent-Length: 10") refl refl (omega arith), tt, tt),
  );
  ends = tt;
  counted = unfold str_case_eq atoi signed_value skip_spaces is_space digits_value in refl;
  no_dir = refl;
}

opened-Queues : Queues opened []
opened-Queues = record {
  holds = record {
    size = refl;
    head_in = omega arith;
    tail_in = omega arith;
    room = omega arith;
    spans = refl;
  };
  short = tt;
}

pub opened-Ready : Ready seconds [] opened
opened-Ready = record {
  queues = opened-Queues;
  room = omega arith;
  free = refl;
  waits = inl refl;
  stamped = inl refl;
  opened = refl;
}

order-drives_example :
    (q : Qik) × (t : Qik) × (a : Bytes) × (b : Bytes) × (accept_request page driver
      ≡ returned tt (record { input = []; output = ok_line ∷ []; closed = true; qik = q }))
    × (process_qik_state seconds 1 q ≡ returned tt t)
    × Commands left true a b
    × (t.wire ≡ a ∷ b ∷ [])
    × Queues t []
    × (t.mutex ≡ false)
order-drives_example =
    order-drives seconds 1 1000 page driver left true [] [] turn_left-Orders opened-Ready
      seconds-Ticks (omega arith)

start_order-stops_example :
    (q : Qik) × (t : Qik) × (u : Qik) × (a : Bytes) × (b : Bytes) × (j : ℕ) × (accept_request page
        driver
      ≡ returned tt (record { input = []; output = ok_line ∷ []; closed = true; qik = q }))
    × (process_qik_state seconds 1 q ≡ returned tt t)
    × Commands left true a b
    × (t.wire ≡ a ∷ b ∷ [])
    × (0 < j)
    × (j < t.moment)
    × (t.motor_shutoff_time ≡ (get_current_time (seconds j) + motor_timeout) % 2 ^ 64)
    × (process_qik_state seconds 1 t ≡ returned tt u)
    × Watched seconds t u
start_order-stops_example =
    start_order-stops seconds 1 1000 page driver left [] [] turn_left-Orders opened-Ready
      seconds-Ticks (omega arith)
