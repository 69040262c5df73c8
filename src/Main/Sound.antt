-- ===== src/Main/Sound.antt =====
-- What holds of the driver's state behind every call.
use telebra.Base.{
  ℕ, ◌≤◌, ◌<◌, refl, true, arith, Bool, [], ◌∷◌, Bytes, length, Outcome, returned, blocked, running,
  exited, false, fault, ignore, Any, Ensures, Sound-Ensures, Keeps, Keeps-then, Keeps-ignore,
}
use telebra.Qik.State.{Qik, initial, ConfigParameter, parameter_code}
use telebra.Qik.Queue.{queue_qik_command}
use telebra.Qik.Commands.{get_firmware_version, get_error_byte, get_configuration_parameter}
use telebra.Qik.Motor.Kept.{IsOrder, IsOrder-bytes}
use telebra.Qik.Serial.{Moment, process_qik_state}
use telebra.Qik.Serial.Await.{read_serial-Waited}
use telebra.Qik.Queue.Fifo.{Queues}
use telebra.Qik.Typed.{AreBytes, IsTyped, AreBytes-zeros}
use telebra.Qik.Typed.Queue.{queue_qik_command-Keeps}
use telebra.Qik.Typed.Serial.{read_serial-IsTyped, process_qik_state-IsTyped}
use telebra.Qik.Whole.{IsWhole, IsWhole-same, queue-Sound, process_qik_state-Sound}
use telebra.SerialPort.{read_serial}
use telebra.Main.{initial_info, error_func}

-- What holds of the states that such calls lead to.
abbrev pub IsSound : Qik → Type 0
IsSound s = IsTyped s × IsWhole s

pub initial-IsSound : IsSound initial
initial-IsSound =
    let typed : IsTyped initial = record {
      size = refl;
      head_in = omega arith;
      tail_in = omega arith;
      stored = AreBytes-zeros 1024;
      pending = omega arith;
      stamped = omega arith;
      shutoff = omega arith;
      written = tt;
    } in
    let empty : Queues initial [] = record {
      holds = record {
        size = refl;
        head_in = omega arith;
        tail_in = omega arith;
        room = omega arith;
        spans = refl;
      };
      short = tt;
    } in
    (typed, ([], empty))

both-Ensures :
    {S A : Type 0} (P Q : S → Type 0) (o : Outcome S A)
    → Ensures Any P o
    → Ensures Any Q o
    → Ensures Any (λ s. P s × Q s) o
both-Ensures P Q (returned a s) h k = (tt, (h.1, k.1))
both-Ensures P Q (blocked s) h k = (h, k)
both-Ensures P Q (fault s) h k = (h, k)
both-Ensures P Q (running s) h k = (h, k)
both-Ensures P Q (exited s) h k = (h, k)

queue-IsSound :
    (buf : Bytes) (e : Bool)
    → AreBytes buf
    → length buf ≤ 16
    → Keeps IsSound Any (ignore (queue_qik_command buf e))
queue-IsSound buf e b short = record {
  at = λ s w.
      both-Ensures IsTyped IsWhole (ignore (queue_qik_command buf e) s)
        ((Keeps-ignore Any _ (queue_qik_command-Keeps buf e b (omega arith))).at s w.0)
        (Sound-Ensures Any IsWhole _ (queue-Sound buf e s short w.1));
}

pub order-IsSound :
    (buf : Bytes) → IsOrder buf → Keeps IsSound Any (ignore (queue_qik_command buf false))
order-IsSound buf o =
    let (b, four) = IsOrder-bytes buf o in queue-IsSound buf false b (omega (arith, four))

get_error_byte-IsSound : Keeps IsSound Any (get_error_byte 9)
unfolding get_error_byte
get_error_byte-IsSound =
    queue-IsSound (0xaa ∷ 9 ∷ 2 ∷ []) true (omega arith, (omega arith, (omega arith, tt)))
      (omega arith)

get_firmware_version-IsSound : Keeps IsSound Any (get_firmware_version 9)
unfolding get_firmware_version
get_firmware_version-IsSound =
    queue-IsSound (0xaa ∷ 9 ∷ 1 ∷ []) true (omega arith, (omega arith, (omega arith, tt)))
      (omega arith)

parameter_code_lt : (p : ConfigParameter) → parameter_code p < 256
parameter_code_lt ConfigParameter.device_id = omega arith
parameter_code_lt ConfigParameter.pwm_parameter = omega arith
parameter_code_lt ConfigParameter.shutdown_motor_on_error = omega arith
parameter_code_lt ConfigParameter.serial_timeout = omega arith

get_configuration_parameter-IsSound :
    (p : ConfigParameter) → Keeps IsSound Any (get_configuration_parameter 9 p)
unfolding get_configuration_parameter
get_configuration_parameter-IsSound p =
    queue-IsSound (0xaa ∷ 9 ∷ 3 ∷ parameter_code p ∷ []) true
      (omega arith, (omega arith, (omega arith, (parameter_code_lt p, tt)))) (omega arith)

pub initial_info-IsSound : Keeps IsSound Any initial_info
unfolding initial_info
initial_info-IsSound = Keeps-then Any _ _ get_firmware_version-IsSound (
    Keeps-then Any _ _ (get_configuration_parameter-IsSound ConfigParameter.device_id) (
      Keeps-then Any _ _ (get_configuration_parameter-IsSound ConfigParameter.pwm_parameter) (
        Keeps-then Any _ _
          (get_configuration_parameter-IsSound ConfigParameter.shutdown_motor_on_error)
          (get_configuration_parameter-IsSound ConfigParameter.serial_timeout))))

pub error_func-IsSound : Keeps IsSound Any error_func
unfolding error_func
error_func-IsSound = get_error_byte-IsSound

pub read_serial-IsSound : (bs : Bytes) (s : Qik) → IsSound s → IsSound (read_serial bs s)
read_serial-IsSound bs s w =
    let r = read_serial-Waited bs s in
    (
      read_serial-IsTyped bs s w.0,
      IsWhole-same s (read_serial bs s) r.queue_same r.head_same r.tail_same w.1,
    )

pub opens-IsSound : (b : Bool) (s : Qik) → IsSound s → IsSound (record s { port_open = b })
opens-IsSound b s w = (
  record {
    size = w.0.size;
    head_in = w.0.head_in;
    tail_in = w.0.tail_in;
    stored = w.0.stored;
    pending = w.0.pending;
    stamped = w.0.stamped;
    shutoff = w.0.shutoff;
    written = w.0.written;
  },
  IsWhole-same s (record s { port_open = b }) refl refl refl w.1,
)

pub process_qik_state-IsSound :
    (env : ℕ → Moment) (spins : ℕ) → Keeps IsSound Any (process_qik_state env spins)
process_qik_state-IsSound env spins = record {
  at = λ s w.
      both-Ensures IsTyped IsWhole (process_qik_state env spins s)
        (process_qik_state-IsTyped env spins s w.0)
        (Sound-Ensures Any IsWhole _ (process_qik_state-Sound env spins s w.1));
}
