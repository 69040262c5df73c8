-- ===== src/Qik/Serial.antt =====
-- The main thread's side of MotorDriver/Qik2s9v1.c: the clock, `sendCommand`, `DequeueQikCommand`
-- and `processQikState`.
pub mod Await
pub mod Send
pub mod Drain
pub mod Watchdog
pub mod Waiting
use telebra.Base.{
  ℕ, zero, suc, ◌+◌, ◌*◌, ◌%◌, ◌^◌, Bool, true, false, not, ◌&&◌, ◌||◌, [], ◌∷◌, ltb, ◌==◌,
  if◌then◌else◌, Bytes, get_or, take, replicate, Outcome, returned, running, ◌>>=◌, ◌>>◌, modify,
}
use telebra.Qik.State.{
  Qik, M, QikCommand, command_code, default_device_id, cmd_timeout_usec, motor_timeout,
}
use telebra.Qik.Queue.{pull_byte, pull_payload}
use telebra.Qik.Commands.{set_m0_forward, set_m1_forward}
use telebra.SerialPort.{write_to_serial_port, read_serial}

-- What the surroundings do up to one reading of the clock: the bytes that the reading thread
-- receives and processes before it, and the answer of `gettimeofday`.
pub record Moment : Type 0 where
  pub received : Bytes
  pub tv_sec : ℕ
  pub tv_usec : ℕ

-- `getCurrentTime`, a `uint64_t` of microseconds.
unfoldable pub get_current_time : Moment → ℕ
get_current_time m = (m.tv_usec + m.tv_sec * 1000000) % 2 ^ 64

abbrev pub is_motor_low : ℕ → Bool
is_motor_low c =
    c == command_code QikCommand.m0_forward
    || c == command_code QikCommand.m0_reverse
    || c == command_code QikCommand.m1_forward
    || c == command_code QikCommand.m1_reverse

abbrev pub is_motor_high : ℕ → Bool
is_motor_high c =
    c == command_code QikCommand.m0_forward_128
    || c == command_code QikCommand.m0_reverse_128
    || c == command_code QikCommand.m1_forward_128
    || c == command_code QikCommand.m1_reverse_128

-- Whether the switch of `sendCommand` sets the automatic shutoff.
unfoldable pub starts_motor : Bytes → Bool
starts_motor buf =
    (is_motor_low (get_or buf 2 0) && not (get_or buf 3 0 == 0)) || is_motor_high (get_or buf 2 0)

module _ (env : ℕ → Moment) where
  -- The globals when the clock is read once more.
  unfoldable pub advance : Qik → Qik
  advance s = record (read_serial (env s.moment).received s) { moment = s.moment + 1 }

  -- One call of `getCurrentTime`.
  unfoldable pub now : M ℕ
  now s = returned (get_current_time (env s.moment)) (advance s)

  -- The loop that waits for the pending command, for `n` rounds at most.
  unfoldable pub await_response : ℕ → M (Unit {0})
  await_response zero s = running s
  await_response (suc n) s =
      let t = advance s in
      let rest = await_response n t in
      if ltb (get_current_time (env s.moment)) ((t.cmd_sent_timestamp + cmd_timeout_usec) % 2 ^ 64)
        && not (t.pending_cmd == 0)
      then rest
      else returned tt t

  -- Mark the time and the command if a response is expected.
  unfoldable pub mark_sent : Bytes → Bool → M (Unit {0})
  unfolding now
  mark_sent buf true = do
    t ← now
    modify (λ s. record s { cmd_sent_timestamp = t; pending_cmd = get_or buf 2 0 })
  mark_sent buf false = modify (λ s. record s { pending_cmd = 0 })

  unfoldable pub set_shutoff : M (Unit {0})
  unfolding now
  set_shutoff = do
    t ← now
    modify (λ s. record s { motor_shutoff_time = (t + motor_timeout) % 2 ^ 64 })

  -- `sendCommand` on the first `len` bytes of `buf`.
  unfoldable pub send_command : ℕ → Bytes → ℕ → Bool → M (Unit {0})
  send_command spins buf len expect_response = do
    await_response spins
    mark_sent buf expect_response
    if starts_motor buf then set_shutoff else modify (λ s. s)
    modify (write_to_serial_port (take len buf))

  -- One round of the loop of `DequeueQikCommand`; returns the new content of `tmpCmd`.
  unfoldable pub dequeue_one : ℕ → Bytes → M Bytes
  dequeue_one spins tmp_cmd = do
    len ← pull_byte
    expects_response ← pull_byte
    tmp ← pull_payload len 0 tmp_cmd
    send_command spins tmp len (not (expects_response == 0))
    returned tmp

  -- The loop, for `n` rounds at most.
  unfoldable pub dequeue_loop : ℕ → ℕ → Bytes → M (Unit {0})
  dequeue_loop zero spins tmp_cmd s = running s
  dequeue_loop (suc n) spins tmp_cmd s =
      let rest = (dequeue_one spins tmp_cmd >>= dequeue_loop n spins) s in
      if s.head == s.tail then returned tt s else rest

  -- `DequeueQikCommand`: the queue holds fewer than 1024 bytes, so 1024 rounds are enough.
  unfoldable pub dequeue_qik_command : ℕ → M (Unit {0})
  dequeue_qik_command spins = dequeue_loop 1024 spins (replicate 16 0)

  -- The automatic stop of `processQikState`; the clock is read only if a shutoff is set.
  unfoldable pub check_shutoff : M (Unit {0})
  check_shutoff s =
      if s.motor_shutoff_time == 0
      then returned tt s
      else if ltb s.motor_shutoff_time (get_current_time (env s.moment))
      then (do
        modify (λ t. record t { motor_shutoff_time = 0 })
        set_m0_forward default_device_id 0
        set_m1_forward default_device_id 0)
          (advance s)
      else returned tt (advance s)

  unfoldable pub process_qik_state : ℕ → M (Unit {0})
  process_qik_state spins = do check_shutoff; dequeue_qik_command spins
