-- ===== src/Qik/Serial/Watchdog.antt =====
-- `processQikState`: the automatic stop two seconds after the last command that started a motor.
use telebra.Base.{
  some, ℕ, ◌+◌, ◌*◌, ◌≤◌, ◌<◌, ◌≡◌, ◌≢◌, ◌⊎◌, inl, inr, refl, ap, ◌∙◌, true, false, List, [], ◌∷◌,
  ◌++◌, arith, lt→ltb, ne→not_==, if◌then◌else◌, Bytes, length, length-append, Outcome, returned,
  blocked, ◌>>◌, ignore, >>=-returned, >>=-blocked,
}
use telebra.Qik.State.{Qik}
use telebra.Qik.Queue.{queue_qik_command}
use telebra.Qik.Queue.Spans.{Holds-same}
use telebra.Qik.Queue.Fifo.{Frame, encode_all, Queues, size_used_lem}
use telebra.Qik.Commands.{m0_forward_message, m1_forward_message, set_m0_forward, set_m1_forward}
use telebra.Qik.Commands.Protocol.{decode, decode-messages}
use telebra.Qik.Commands.Laws.{frame, Apart, queue_two, ignore-full, ignore-blocked}
use telebra.Qik.Serial.{Moment, get_current_time, advance, check_shutoff, process_qik_state}
use telebra.Qik.Serial.Await.{advance-Waited, moment-advance}
use telebra.Qik.Serial.Send.{Stamped}
use telebra.Qik.Serial.Drain.{Ticks, payloads, dequeue_qik_command-Drained}

abbrev pub stop_m0 : Bytes
stop_m0 = m0_forward_message 9 0

abbrev pub stop_m1 : Bytes
stop_m1 = m1_forward_message 9 0

pub payloads-append : (fs gs : List Frame) → payloads (fs ++ gs) ≡ payloads fs ++ payloads gs
payloads-append [] gs = refl
payloads-append (f ∷ fs) gs = ap (λ l. f.payload ∷ l) (payloads-append fs gs)

module _ (env : ℕ → Moment) where
  -- The automatic stop is due when the clock is read next.
  abbrev pub Due : Qik → Type 0
  Due s = (s.motor_shutoff_time ≢ 0) × (s.motor_shutoff_time < get_current_time (env s.moment))

  -- The globals with which the stop commands are queued.
  abbrev pub expired : Qik → Qik
  expired s = record (advance env s) { motor_shutoff_time = 0 }

  queue_stop : Qik → Outcome Qik (Unit {0})
  queue_stop = ignore (queue_qik_command stop_m0 false) >> ignore (queue_qik_command stop_m1 false)

  check_shutoff-Due : (s : Qik) → Due s → check_shutoff env s ≡ queue_stop (expired s)
  unfolding check_shutoff queue_stop set_m0_forward set_m1_forward
  check_shutoff-Due s (set, late) = rw (ne→not_== _ _ set, lt→ltb _ _ late)

  expired-Queues : (s : Qik) (fs : List Frame) → Queues s fs → Queues (expired s) fs
  expired-Queues s fs q =
      let w = advance-Waited env s in
      record {
        holds = Holds-same (expired s) (encode_all fs) w.queue_same w.head_same w.tail_same q.holds;
        short = q.short;
      }

  expired-mutex : (s : Qik) → (expired s).mutex ≡ s.mutex
  expired-mutex s = (advance-Waited env s).mutex_same

  pub Stamped-later :
      (s t : Qik)
      → Stamped env s
      → (t.pending_cmd ≡ 0) ⊎ (t.pending_cmd ≡ s.pending_cmd)
      → t.cmd_sent_timestamp ≡ s.cmd_sent_timestamp
      → s.moment ≤ t.moment
      → Stamped env t
  Stamped-later s t st (inl none_pending) same le = inl none_pending
  Stamped-later s t (inl none_pending) (inr p) same le = inl (p ∙ none_pending)
  Stamped-later s t (inr (j, before, at)) (inr p) same le = inr (j, omega arith, same ∙ at)

  expired-Stamped : (s t : Qik) → Stamped env s → Apart (expired s) t → Stamped env t
  expired-Stamped s t st a =
      let w = advance-Waited env s in
      let at = moment-advance env s in
      Stamped-later s t st (ground arith) (ground arith) (omega (arith, a.moment_same))

  -- One pass of `processQikState` when the stop is due, with the mutex free, 12 bytes of room and a
  -- clock that goes on: it returns with the queue empty, and has written to an open port what was
  -- queued and then two commands that the controller reads as speed 0 for motor 0 and motor 1.
  pub process_qik_state-Due :
      (spins horizon : ℕ) (fs : List Frame) (s : Qik)
      → Due s
      → Ticks env spins horizon
      → Queues s fs
      → Stamped env s
      → s.mutex ≡ false
      → length (encode_all fs) + 12 < 1024
      → s.moment + 1 + (spins + 2) * (length fs + 2) ≤ horizon
      → (t : Qik) × (process_qik_state env spins s ≡ returned tt t)
        × Queues t []
        × (t.mutex ≡ false)
        × (t.wire
            ≡ (if s.port_open then s.wire ++ (payloads fs ++ stop_m0 ∷ stop_m1 ∷ []) else s.wire))
        × (decode 9 stop_m0 ≡ some (record { motor = 0; forward = true; speed = 0 }))
        × (decode 9 stop_m1 ≡ some (record { motor = 1; forward = true; speed = 0 }))
  unfolding process_qik_state queue_stop
  process_qik_state-Due spins horizon fs s due c q st free fits end =
      let e = expired s in
      let (t, run, queued, free', apart) =
        queue_two stop_m0 stop_m1 e fs (expired-Queues s fs q) (expired-mutex s ∙ free)
          (omega arith) (omega arith) (omega arith) in
      let (u, drain, d) =
        dequeue_qik_command-Drained env spins horizon
          (fs ++ frame stop_m0 false ∷ frame stop_m1 false ∷ []) t c queued
          (expired-Stamped s t st apart)
          (let m = moment-advance env s in
            let n = length-append fs (frame stop_m0 false ∷ frame stop_m1 false ∷ []) in
            rw n (omega (arith, apart.moment_same))) in
      (
        u,
        >>=-returned (check_shutoff env) _ (check_shutoff-Due s due ∙ run) ∙ drain,
        d.queues,
        d.mutex_same ∙ free',
        ground (
          arith,
          d.wire_grows,
          apart.wire_same,
          apart.port_same,
          advance-Waited env s,
          payloads-append fs (frame stop_m0 false ∷ frame stop_m1 false ∷ []),
        ),
        (decode-messages 9 0 (omega arith)).0,
        (decode-messages 9 0 (omega arith)).2,
      )

  -- With the stop due and the mutex held, the automatic stop sets the shutoff time to 0 and then
  -- waits for ever: the main thread queues no stop command and writes nothing.
  pub process_qik_state_held :
      (spins : ℕ) (s : Qik)
      → Due s
      → s.mutex ≡ true
      → (process_qik_state env spins s ≡ blocked (expired s))
        × ((expired s).wire ≡ s.wire)
        × ((expired s).motor_shutoff_time ≡ 0)
  unfolding process_qik_state queue_stop
  process_qik_state_held spins s due held = (
    >>=-blocked (check_shutoff env) _ (
        check_shutoff-Due s due
        ∙ >>=-blocked (ignore (queue_qik_command stop_m0 false)) _
            (ignore-blocked stop_m0 false (expired s) (expired-mutex s ∙ held))),
    (advance-Waited env s).wire_same,
    refl,
  )

  -- With the mutex free and the stop due, but the queue too full for the first stop command: that
  -- command is refused and leaves the mutex locked, so that the main thread waits for ever at the
  -- second. It writes nothing, and the mutex stays held.
  pub process_qik_state_full :
      (spins : ℕ) (s : Qik) (fs : List Frame)
      → Due s
      → Queues s fs
      → s.mutex ≡ false
      → 1024 ≤ length (encode_all fs) + 6
      → (process_qik_state env spins s ≡ blocked (record (expired s) { mutex = true }))
        × ((expired s).wire ≡ s.wire)
  unfolding process_qik_state queue_stop
  process_qik_state_full spins s fs due q free full = (
    >>=-blocked (check_shutoff env) _ (
        check_shutoff-Due s due
        ∙ >>=-returned (ignore (queue_qik_command stop_m0 false)) _ (
            ignore-full stop_m0 false (expired s) (expired-mutex s ∙ free) (
              omega
                (arith, size_used_lem (expired s) (encode_all fs) (expired-Queues s fs q).holds)))
        ∙ ignore-blocked stop_m1 false (record (expired s) { mutex = true }) refl),
    (advance-Waited env s).wire_same,
  )
