-- ===== src/Qik/Typed/Serial.antt =====
-- The main thread's operations: sending, and a pass of `processQikState`.
use telebra.Base.{
  ℕ, zero, suc, ◌+◌, ◌%◌, ◌^◌, ◌<◌, ◌≡◌, refl, Bool, true, false, not, ◌&&◌, arith, List, [], ◌∷◌,
  ◌++◌, ltb, ◌==◌, if◌then◌else◌, Bytes, All, All-append, get_or, take, replicate, modify, Ensures,
  Ensures-if, Any, Keeps, Keeps-if, Keeps-bind, Keeps-then, Keeps-returned, Keeps-modify,
}
use telebra.Qik.State.{Qik, cmd_timeout_usec, motor_timeout}
use telebra.Qik.Queue.{pull_byte, pull_payload}
use telebra.Qik.Response.{process_response}
use telebra.SerialPort.{read_serial, write_to_serial_port}
use telebra.Qik.Serial.{
  Moment, get_current_time, starts_motor, advance, now, await_response, mark_sent, set_shutoff,
  send_command, dequeue_one, dequeue_loop, dequeue_qik_command, check_shutoff, process_qik_state,
}
use telebra.Qik.Typed.{AreBytes, IsTyped, AreBytes-get_or, AreBytes-take, AreBytes-zeros}
use telebra.Qik.Typed.Queue.{pull_byte-Keeps, pull_payload-Keeps}
use telebra.Qik.Motor.Kept.{set_m0_forward-Keeps, set_m1_forward-Keeps}
use telebra.Qik.Typed.Motor.{order-IsTyped}

-- A change of the fields that the queue does not have.
with_times :
    (s t : Qik)
    → IsTyped s
    → t.queue ≡ s.queue
    → t.head ≡ s.head
    → t.tail ≡ s.tail
    → t.wire ≡ s.wire
    → t.pending_cmd < 256
    → t.cmd_sent_timestamp < 2 ^ 64
    → t.motor_shutoff_time < 2 ^ 64
    → IsTyped t
with_times s t h q e f w p c m = record {
  size = rw q h.size;
  head_in = rw e h.head_in;
  tail_in = rw f h.tail_in;
  stored = rw q h.stored;
  pending = p;
  stamped = c;
  shutoff = m;
  written = rw w h.written;
}

time_lt : (m : Moment) → get_current_time m < 2 ^ 64
unfolding get_current_time
time_lt m = omega arith

pub read_serial-IsTyped : (bs : Bytes) (s : Qik) → IsTyped s → IsTyped (read_serial bs s)
unfolding read_serial process_response
read_serial-IsTyped [] s t = t
read_serial-IsTyped (b ∷ bs) s t =
    read_serial-IsTyped bs (process_response b s)
      (with_times s (process_response b s) t refl refl refl refl (omega arith) t.stamped t.shutoff)

module _ (env : ℕ → Moment) where
  pub advance-IsTyped : (s : Qik) → IsTyped s → IsTyped (advance env s)
  unfolding advance
  advance-IsTyped s t =
      let r = read_serial-IsTyped (env s.moment).received s t in
      with_times (read_serial (env s.moment).received s) _ r refl refl refl refl r.pending r.stamped
        r.shutoff

  now-Keeps : Keeps IsTyped (λ t. t < 2 ^ 64) (now env)
  unfolding now
  now-Keeps = record { at = λ s t. (time_lt (env s.moment), advance-IsTyped s t) }

  await_response-Ensures :
      (n : ℕ) (s : Qik) → IsTyped s → Ensures Any IsTyped (await_response env n s)
  unfolding await_response
  await_response-Ensures zero s t = t
  await_response-Ensures (suc n) s t =
      let a = advance-IsTyped s t in
      Ensures-if Any IsTyped
        (ltb (get_current_time (env s.moment))
            (((advance env s).cmd_sent_timestamp + cmd_timeout_usec) % 2 ^ 64)
          && not ((advance env s).pending_cmd == 0))
        _ _ (await_response-Ensures n (advance env s) a) (tt, a)

  mark_sent-Keeps :
      (buf : Bytes) (e : Bool) → AreBytes buf → Keeps IsTyped Any (mark_sent env buf e)
  unfolding mark_sent
  mark_sent-Keeps buf true h =
      let mark =
        λ (m : ℕ) (s : Qik). record s { cmd_sent_timestamp = m; pending_cmd = get_or buf 2 0 } in
      Keeps-bind (λ t. t < 2 ^ 64) Any (now env) (λ m. modify (mark m)) now-Keeps
        (λ m lt. Keeps-modify (mark m) (λ s t.
          with_times s (mark m s) t refl refl refl refl (AreBytes-get_or buf 2 h) lt t.shutoff))
  mark_sent-Keeps buf false h =
      let mark = λ (s : Qik). record s { pending_cmd = 0 } in
      Keeps-modify mark
        (λ s t. with_times s (mark s) t refl refl refl refl (omega arith) t.stamped t.shutoff)

  set_shutoff-Keeps : Keeps IsTyped Any (set_shutoff env)
  unfolding set_shutoff
  set_shutoff-Keeps =
      let arm =
        λ (m : ℕ) (s : Qik). record s { motor_shutoff_time = (m + motor_timeout) % 2 ^ 64 } in
      Keeps-bind (λ t. t < 2 ^ 64) Any (now env) (λ m. modify (arm m)) now-Keeps
        (λ m lt.
          Keeps-modify (arm m)
            (λ s t. with_times s (arm m s) t refl refl refl refl t.pending t.stamped (omega arith)))

  write-IsTyped :
      (msg : Bytes) (s : Qik) → AreBytes msg → IsTyped s → IsTyped (write_to_serial_port msg s)
  unfolding write_to_serial_port
  write-IsTyped msg s h t = record {
    size = t.size;
    head_in = t.head_in;
    tail_in = t.tail_in;
    stored = t.stored;
    pending = t.pending;
    stamped = t.stamped;
    shutoff = t.shutoff;
    written = wire_bytes s.port_open s.wire t.written;
  }
    where
      wire_bytes :
          (b : Bool) (w : List Bytes)
          → All AreBytes w
          → All AreBytes (if b then w ++ msg ∷ [] else w)
      wire_bytes true w k = All-append AreBytes w (msg ∷ []) k (h, tt)
      wire_bytes false w k = k

  send_command-Keeps :
      (spins : ℕ) (buf : Bytes) (len : ℕ) (e : Bool)
      → AreBytes buf
      → Keeps IsTyped Any (send_command env spins buf len e)
  unfolding send_command
  send_command-Keeps spins buf len e h =
      Keeps-then Any (await_response env spins) _
        (record { at = λ s t. await_response-Ensures spins s t })
        (Keeps-then Any (mark_sent env buf e) _ (mark_sent-Keeps buf e h) (
          Keeps-then Any (if starts_motor buf then set_shutoff env else modify (λ s. s)) _
            (Keeps-if (starts_motor buf) _ _ set_shutoff-Keeps (Keeps-modify _ (λ s t. t)))
            (Keeps-modify _ (λ s t. write-IsTyped (take len buf) s (AreBytes-take len buf h) t))))

  dequeue_one-Keeps :
      (spins : ℕ) (tmp : Bytes) → AreBytes tmp → Keeps IsTyped AreBytes (dequeue_one env spins tmp)
  unfolding dequeue_one
  dequeue_one-Keeps spins tmp h =
      Keeps-bind (λ b. b < 256) AreBytes pull_byte _ pull_byte-Keeps
        (λ len hl.
          Keeps-bind (λ b. b < 256) AreBytes pull_byte _ pull_byte-Keeps
            (λ e he.
              Keeps-bind AreBytes AreBytes (pull_payload len 0 tmp) _
                (pull_payload-Keeps len 0 tmp h)
                (λ tmp' h'.
                  Keeps-then AreBytes (send_command env spins tmp' len (not (e == 0))) _
                    (send_command-Keeps spins tmp' len (not (e == 0)) h')
                    (Keeps-returned AreBytes tmp' h'))))

  dequeue_loop-Keeps :
      (n spins : ℕ) (tmp : Bytes) → AreBytes tmp → Keeps IsTyped Any (dequeue_loop env n spins tmp)
  unfolding dequeue_loop
  dequeue_loop-Keeps zero spins tmp h = record { at = λ s t. t }
  dequeue_loop-Keeps (suc n) spins tmp h = record {
    at = λ s t.
        Ensures-if Any IsTyped (s.head == s.tail) _ _ (tt, t)
          ((Keeps-bind AreBytes Any (dequeue_one env spins tmp) (dequeue_loop env n spins)
              (dequeue_one-Keeps spins tmp h) (λ tmp' h'. dequeue_loop-Keeps n spins tmp' h')).at
            s t);
  }

  check_shutoff-Keeps : Keeps IsTyped Any (check_shutoff env)
  unfolding check_shutoff
  check_shutoff-Keeps = record {
    at = λ s t.
        let clear = λ (r : Qik). record r { motor_shutoff_time = 0 } in
        let a = advance-IsTyped s t in
        Ensures-if Any IsTyped (s.motor_shutoff_time == 0) _ _ (tt, t)
          (Ensures-if Any IsTyped (ltb s.motor_shutoff_time (get_current_time (env s.moment))) _ _
            ((Keeps-then Any (modify clear) _
                (Keeps-modify clear (λ r u.
                  with_times r (clear r) u refl refl refl refl u.pending u.stamped (omega arith)))
                (Keeps-then Any _ _ (set_m0_forward-Keeps IsTyped order-IsTyped 0 (omega arith))
                  (set_m1_forward-Keeps IsTyped order-IsTyped 0 (omega arith)))).at
              (advance env s) a)
            (tt, a));
  }

  -- A pass of `processQikState`, however it ends and whatever the queue holds: where each value of the
  -- driver is in the range of its C type and the indices stand inside the ring, they do behind it, and
  -- what was written to the port are bytes.
  pub process_qik_state-IsTyped :
      (spins : ℕ) (s : Qik) → IsTyped s → Ensures Any IsTyped (process_qik_state env spins s)
  unfolding process_qik_state dequeue_qik_command
  process_qik_state-IsTyped spins =
      (Keeps-then Any (check_shutoff env) _ check_shutoff-Keeps
        (dequeue_loop-Keeps 1024 spins (replicate 16 0) (AreBytes-zeros 16))).at
