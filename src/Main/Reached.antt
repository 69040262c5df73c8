-- ===== src/Main/Reached.antt =====
-- The driver under everything that the program does with it, one call after the other.
use telebra.Base.{
  ℕ, ◌≡◌, ◌≢◌, ◌⊎◌, inl, inr, Bool, Bytes, Outcome, returned, blocked, fault, Any, Keeps,
}
use telebra.Qik.State.{Qik, initial}
use telebra.Qik.Motor.Kept.{process_motor_control-Keeps}
use telebra.Qik.Serial.{Moment, process_qik_state}
use telebra.Qik.Typed.{IsTyped}
use telebra.Qik.Whole.{IsWhole, process_qik_state-Sound}
use telebra.SerialPort.{read_serial}
use telebra.Web.State.{Client, Host}
use telebra.Web.Request.{accept_request}
use telebra.Web.Request.Kept.{accept_request-Keeps}
use telebra.Main.{initial_info, error_func}
use telebra.Main.Sound.{
  IsSound, initial-IsSound, order-IsSound, initial_info-IsSound, error_func-IsSound,
  read_serial-IsSound, opens-IsSound, process_qik_state-IsSound,
}

-- The call returned with this state, or waits for ever on the mutex with it while others go on.
abbrev pub Leaves : {S : Type 0} → Outcome S (Unit {0}) → S → Type 0
Leaves o t = (o ≡ returned tt t) ⊎ (o ≡ blocked t)

-- The states of the driver that calls lead to, in any order: the port opened or closed, bytes
-- received, the first queries, the interrupt of the error pin, requests, and passes of the endless
-- loop.
pub data Reached (env : ℕ → Moment) : Qik → Type 0 where
  starts : Reached env initial
  opens : {s : Qik} (b : Bool) → Reached env s → Reached env (record s { port_open = b })
  receives : {s : Qik} (bs : Bytes) → Reached env s → Reached env (read_serial bs s)
  queries : {s t : Qik} → Reached env s → Leaves (initial_info s) t → Reached env t
  interrupts : {s t : Qik} → Reached env s → Leaves (error_func s) t → Reached env t
  requests :
      {d : Client} (host : Host) (c : Client)
      → Reached env c.qik
      → Leaves (accept_request host c) d
      → Reached env d.qik
  passes :
      {s t : Qik} (spins : ℕ)
      → Reached env s
      → Leaves (process_qik_state env spins s) t
      → Reached env t

after :
    {S : Type 0} {P : S → Type 0} (m : S → Outcome S (Unit {0})) {s t : S}
    → Keeps P Any m
    → P s
    → Leaves (m s) t
    → P t
after m {s} k p (inl e) = (rw e at (k.at s p)).1
after m {s} k p (inr e) = rw e at (k.at s p)

Reached-IsSound : (env : ℕ → Moment) {s : Qik} → Reached env s → IsSound s
Reached-IsSound env starts = initial-IsSound
Reached-IsSound env (opens {s} b r) = opens-IsSound b s (Reached-IsSound env r)
Reached-IsSound env (receives {s} bs r) = read_serial-IsSound bs s (Reached-IsSound env r)
Reached-IsSound env (queries r e) =
    after initial_info initial_info-IsSound (Reached-IsSound env r) e
Reached-IsSound env (interrupts r e) = after error_func error_func-IsSound (Reached-IsSound env r) e
Reached-IsSound env (requests host c r e) =
    after (accept_request host)
      (accept_request-Keeps IsSound (process_motor_control-Keeps IsSound order-IsSound) host)
      (Reached-IsSound env r) e
Reached-IsSound env (passes spins r e) =
    after (process_qik_state env spins) (process_qik_state-IsSound env spins)
      (Reached-IsSound env r) e

-- In every state of the driver that calls lead to, one after the other in any order, each value is in
-- the range of its C type, the indices stand inside the ring, and what was written to the port are
-- bytes.
pub Reached-IsTyped : (env : ℕ → Moment) (s : Qik) → Reached env s → IsTyped s
Reached-IsTyped env s r = (Reached-IsSound env r).0

-- In every state of the driver that calls lead to, one after the other in any order and whatever
-- requests came, the queue holds whole commands that fit `tmpCmd`, and a further pass of
-- `processQikState` has no undefined behaviour: no command runs over `tmpCmd`.
pub Reached-no_fault :
    (env : ℕ → Moment) (s t : Qik) (spins : ℕ)
    → Reached env s
    → IsWhole s × (process_qik_state env spins s ≢ fault t)
Reached-no_fault env s t spins r =
    let w = (Reached-IsSound env r).1 in (w, λ e. rw e at (process_qik_state-Sound env spins s w))
