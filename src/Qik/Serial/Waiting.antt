-- ===== src/Qik/Serial/Waiting.antt =====
-- A pass of `processQikState` in which the automatic stop is not due.
use telebra.Base.{
  ℕ, ◌+◌, ◌*◌, ◌≤◌, ◌≡◌, ◌≢◌, ◌⊎◌, inl, inr, refl, ◌∙◌, true, arith, le→not_ltb, ne→not_==,
  if◌then◌else◌, ◌++◌, List, [], length, returned, >>=-returned,
}
use telebra.Qik.State.{Qik}
use telebra.Qik.Queue.Spans.{Holds-same}
use telebra.Qik.Queue.Fifo.{Frame, encode_all, Queues}
use telebra.Qik.Serial.{Moment, get_current_time, advance, check_shutoff, process_qik_state}
use telebra.Qik.Serial.Await.{advance-Waited, moment-advance}
use telebra.Qik.Serial.Send.{Stamped, Shutoff}
use telebra.Qik.Serial.Drain.{Ticks, LastStarts, payloads, dequeue_qik_command-Drained}
use telebra.Qik.Serial.Watchdog.{Stamped-later}

module _ (env : ℕ → Moment) where
  -- No shutoff time is set, or the clock, when it is read next, is not beyond it.
  abbrev pub Waits : Qik → Type 0
  Waits s =
      (s.motor_shutoff_time ≡ 0)
      ⊎ ((s.motor_shutoff_time ≢ 0) × (get_current_time (env s.moment) ≤ s.motor_shutoff_time))

  -- What the test of the shutoff time leaves for the queue.
  record Tested (fs : List Frame) (s t : Qik) : Type 0 where
    queues : Queues t fs
    stamped : Stamped env t
    soon : t.moment ≤ s.moment + 1
    mutex_same : t.mutex ≡ s.mutex
    port_same : t.port_open ≡ s.port_open
    wire_same : t.wire ≡ s.wire
    shutoff_same : t.motor_shutoff_time ≡ s.motor_shutoff_time
    later : s.moment ≤ t.moment

  check_shutoff-Tested :
      (fs : List Frame) (s : Qik)
      → Waits s
      → Queues s fs
      → Stamped env s
      → (t : Qik) × (check_shutoff env s ≡ returned tt t) × Tested fs s t
  unfolding check_shutoff
  check_shutoff-Tested fs s (inl unset) q st = (
    s,
    rw unset refl,
    record {
      queues = q;
      stamped = st;
      soon = omega arith;
      mutex_same = refl;
      port_same = refl;
      wire_same = refl;
      shutoff_same = refl;
      later = omega arith;
    },
  )
  check_shutoff-Tested fs s (inr (set, early)) q st =
      let w = advance-Waited env s in
      let at = moment-advance env s in
      (
        advance env s,
        rw (ne→not_== _ _ set, le→not_ltb _ _ early) refl,
        record {
          queues = record {
            holds =
                Holds-same (advance env s) (encode_all fs) w.queue_same w.head_same w.tail_same
                  q.holds;
            short = q.short;
          };
          stamped =
              Stamped-later env s (advance env s) st (ground arith) (ground arith)
                (omega (arith, at));
          soon = omega (arith, at);
          mutex_same = w.mutex_same;
          port_same = w.port_same;
          wire_same = w.wire_same;
          shutoff_same = w.shutoff_same;
          later = omega (arith, at);
        },
      )

  -- What a pass that is not due leaves.
  pub record Passed (spins : ℕ) (fs : List Frame) (s t : Qik) : Type 0 where
    pub queues : Queues t []
    pub mutex_same : t.mutex ≡ s.mutex
    pub port_same : t.port_open ≡ s.port_open
    pub wire_grows : t.wire ≡ (if s.port_open then s.wire ++ payloads fs else s.wire)
    pub stamped : Stamped env t
    pub soon : t.moment ≤ s.moment + 1 + (spins + 2) * length fs
    pub shutoff_set : LastStarts fs → Shutoff env true s t

  Shutoff-later : (s m t : Qik) → s.moment ≤ m.moment → Shutoff env true m t → Shutoff env true s t
  Shutoff-later s m t le (j, low, high, e) = (j, omega (arith, low), high, e)

  -- One pass of `processQikState` when the stop is not due, with a clock that goes on: it returns
  -- with the queue empty, and has written what was queued to an open port; and if the last command
  -- of all starts a motor, the shutoff time is set from a reading of the clock during the pass.
  pub process_qik_state-Passed :
      (spins horizon : ℕ) (fs : List Frame) (s : Qik)
      → Waits s
      → Ticks env spins horizon
      → Queues s fs
      → Stamped env s
      → s.moment + 1 + (spins + 2) * length fs ≤ horizon
      → (t : Qik) × (process_qik_state env spins s ≡ returned tt t) × Passed spins fs s t
  unfolding process_qik_state
  process_qik_state-Passed spins horizon fs s waits c q st end =
      let (t, run, d) = check_shutoff-Tested fs s waits q st in
      let (u, drain, e) =
        dequeue_qik_command-Drained env spins horizon fs t c d.queues d.stamped
          (omega (arith, d.soon)) in
      (
        u,
        >>=-returned (check_shutoff env) _ run ∙ drain,
        record {
          queues = e.queues;
          mutex_same = e.mutex_same ∙ d.mutex_same;
          port_same = e.port_same ∙ d.port_same;
          wire_grows = ground (arith, e.wire_grows, d.wire_same, d.port_same);
          stamped = e.stamped;
          soon = omega (arith, e.soon, d.soon);
          shutoff_set = λ last. Shutoff-later s t u d.later (e.shutoff_set last);
        },
      )
