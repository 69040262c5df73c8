-- ===== src/Qik/Serial/Send.antt =====
-- What `sendCommand` does to the globals.
use telebra.Base.{
  ℕ, ◌+◌, ◌%◌, ◌^◌, ◌≤◌, ◌<◌, ◌≡◌, refl, ◌⊎◌, inl, inr, Bool, true, false, [], ◌∷◌, ◌++◌, arith,
  if◌then◌else◌, Bytes, get_or, take, returned, modify, ◌∙◌, >>=-returned,
}
use telebra.Qik.State.{Qik, motor_timeout}
use telebra.SerialPort.{write_to_serial_port}
use telebra.Qik.Serial.{
  Moment, get_current_time, advance, starts_motor, await_response, mark_sent, set_shutoff,
  send_command,
}
use telebra.Qik.Serial.Await.{Waited, Ends, advance-Waited, moment-advance, await_response-Waited}

-- Sending leaves the queue, the mutex and the descriptor alone.
pub record Kept (s t : Qik) : Type 0 where
  pub queue_same : t.queue ≡ s.queue
  pub head_same : t.head ≡ s.head
  pub tail_same : t.tail ≡ s.tail
  pub mutex_same : t.mutex ≡ s.mutex
  pub port_same : t.port_open ≡ s.port_open

module _ (env : ℕ → Moment) where
  -- The command that is pending, if any, was sent at a time read off the clock before.
  abbrev pub Stamped : Qik → Type 0
  Stamped s =
      (s.pending_cmd ≡ 0)
      ⊎ ((j : ℕ) × (j < s.moment) × (s.cmd_sent_timestamp ≡ get_current_time (env j)))

  -- The shutoff time that `t` has after a command to which `starts` applies, sent from `s` on.
  abbrev pub Shutoff : Bool → Qik → Qik → Type 0
  Shutoff true s t =
      (j : ℕ) × (s.moment < j)
      × (j < t.moment)
      × (t.motor_shutoff_time ≡ (get_current_time (env j) + motor_timeout) % 2 ^ 64)
  Shutoff false s t = t.motor_shutoff_time ≡ s.motor_shutoff_time

  -- The state after a command was sent from `s`, with `msg` written to the port,
  -- and the clock read `rounds + 2` times at most.
  pub record Sent (rounds : ℕ) (starts expects : Bool) (msg : Bytes) (s t : Qik) : Type 0 where
    pub kept : Kept s t
    pub wire_grows : t.wire ≡ (if s.port_open then s.wire ++ msg ∷ [] else s.wire)
    pub shutoff : Shutoff starts s t
    pub stamped : Stamped t
    pub idle : (expects ≡ true) ⊎ (t.pending_cmd ≡ 0)
    pub later : s.moment < t.moment
    pub soon : t.moment ≤ s.moment + rounds + 2

  marked : Bytes → Bool → Qik → Qik
  marked buf true s = record (advance env s) {
    cmd_sent_timestamp = get_current_time (env s.moment);
    pending_cmd = get_or buf 2 0;
  }
  marked buf false s = record s { pending_cmd = 0 }

  mark_sent-marked :
      (buf : Bytes) (e : Bool) (s : Qik) → mark_sent env buf e s ≡ returned tt (marked buf e s)
  unfolding mark_sent marked
  mark_sent-marked buf true s = refl
  mark_sent-marked buf false s = refl

  armed : Bool → Qik → Qik
  armed true s = record (advance env s) {
    motor_shutoff_time = (get_current_time (env s.moment) + motor_timeout) % 2 ^ 64;
  }
  armed false s = s

  set_shutoff-armed :
      (b : Bool) (s : Qik)
      → (if b then set_shutoff env else modify (λ t. t)) s ≡ returned tt (armed b s)
  unfolding set_shutoff armed
  set_shutoff-armed true s = refl
  set_shutoff-armed false s = refl

  -- What `marked` keeps and sets.
  record Marks (e : Bool) (s t : Qik) : Type 0 where
    kept : Kept s t
    wire : t.wire ≡ s.wire
    shutoff : t.motor_shutoff_time ≡ s.motor_shutoff_time
    idle : (e ≡ true) ⊎ (t.pending_cmd ≡ 0)
    stamped : Stamped t
    later : s.moment ≤ t.moment
    soon : t.moment ≤ s.moment + 1

  marked-Marks : (buf : Bytes) (e : Bool) (s : Qik) → Marks e s (marked buf e s)
  unfolding marked
  marked-Marks buf true s =
      let w = advance-Waited env s in
      let m = moment-advance env s in
      record {
        kept = ground arith;
        wire = w.wire_same;
        shutoff = w.shutoff_same;
        idle = inl refl;
        stamped = inr (s.moment, omega arith, refl);
        later = omega arith;
        soon = omega arith;
      }
  marked-Marks buf false s = record {
    kept = ground arith;
    wire = refl;
    shutoff = refl;
    idle = inr refl;
    stamped = inl refl;
    later = omega arith;
    soon = omega arith;
  }

  -- The end of `sendCommand`, behind the wait.
  write-Sent :
      (r : ℕ) (b e : Bool) (msg : Bytes) (s w m : Qik)
      → Waited s w
      → s.moment < w.moment
      → w.moment ≤ s.moment + r
      → Marks e w m
      → Sent r b e msg s (write_to_serial_port msg (armed b m))
  unfolding armed write_to_serial_port
  write-Sent r true e msg s w m a lt le k =
      let v = advance-Waited env m in
      let at = moment-advance env m in
      record {
        kept = ground arith;
        wire_grows = ground arith;
        shutoff = (m.moment, omega arith, omega arith, refl);
        stamped = ground arith;
        idle = ground arith;
        later = omega arith;
        soon = omega arith;
      }
  write-Sent r false e msg s w m a lt le k = record {
    kept = ground arith;
    wire_grows = ground arith;
    shutoff = ground arith;
    stamped = ground arith;
    idle = ground arith;
    later = omega arith;
    soon = omega arith;
  }

  -- `sendCommand` returns if the wait ends within its rounds, and writes the message once, to an open
  -- port. If the message starts a motor the shutoff time is set from a reading of the clock, and
  -- otherwise it is kept; if no response is expected no command is pending afterwards; the queue and
  -- the mutex are kept.
  pub send_command-Sent :
      (spins k : ℕ) (buf : Bytes) (len : ℕ) (e : Bool) (s : Qik)
      → k < spins
      → Ends env k s
      → (t : Qik) × (send_command env spins buf len e s ≡ returned tt t)
        × Sent spins (starts_motor buf) e (take len buf) s t
  unfolding send_command
  send_command-Sent spins k buf len e s lt h =
      let (w, run, a, later, soon) = await_response-Waited env spins k s lt h in
      let m = marked buf e w in
      (
        write_to_serial_port (take len buf) (armed (starts_motor buf) m),
        >>=-returned (await_response env spins) _ run
            ∙ >>=-returned (mark_sent env buf e) _ (mark_sent-marked buf e w)
            ∙ >>=-returned (if starts_motor buf then set_shutoff env else modify (λ u. u)) _
                (set_shutoff-armed (starts_motor buf) m),
        write-Sent spins (starts_motor buf) e (take len buf) s w m a later (omega arith)
            (marked-Marks buf e w),
      )
