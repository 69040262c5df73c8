-- ===== src/Main/Order/Stop.antt =====
-- An order that starts the motors, and the stop of the motors when no other order follows.
use telebra.Base.{
  some, ℕ, ◌+◌, ◌*◌, ◌%◌, ◌^◌, ◌≤◌, ◌<◌, ◌≡◌, ◌⊎◌, inl, inr, ◌∙◌, true, false, List, [], ◌∷◌, ◌++◌,
  append-nil, arith, Bytes, length, length-append, returned,
}
use mathlib.Core.Path.{subst}
use telebra.Qik.State.{Qik, motor_timeout}
use telebra.Qik.Queue.Fifo.{Frame, Queues}
use telebra.Qik.Commands.Protocol.{decode, starts_motor-decode}
use telebra.Qik.Commands.Laws.{frame}
use telebra.Qik.Motor.Drive.{Direction}
use telebra.Qik.Serial.{Moment, get_current_time, process_qik_state}
use telebra.Qik.Serial.Send.{Stamped}
use telebra.Qik.Serial.Drain.{Ticks, Starts, LastStarts, payloads}
use telebra.Qik.Serial.Watchdog.{stop_m0, stop_m1, Due, process_qik_state-Due}
use telebra.Qik.Serial.Waiting.{Waits, process_qik_state-Passed}
use telebra.Web.State.{Client, Host}
use telebra.Web.Cgi.Post.{ok_line}
use telebra.Web.Request.{accept_request}
use telebra.Main.Order.{Orders, Ready, Commands, order-Passed, order-wire}

LastStarts-append : (fs : List Frame) (f g : Frame) → Starts true g → LastStarts (fs ++ f ∷ g ∷ [])
LastStarts-append [] f g h = h
LastStarts-append (e ∷ []) f g h = h
LastStarts-append (e ∷ e' ∷ fs) f g h = LastStarts-append (e' ∷ fs) f g h

module _ (env : ℕ → Moment) where
  -- A pass with an empty queue, whether the stop is due or not.
  record Idle (t : Qik) : Type 0 where
    empty : Queues t []
    free : t.mutex ≡ false
    opened : t.port_open ≡ true
    stamped : Stamped env t

  -- Whether the stop was due in a pass with an empty queue, and what the pass wrote.
  abbrev pub Watched : Qik → Qik → Type 0
  Watched t u =
      (Waits env t × (u.wire ≡ t.wire))
      ⊎ (Due env t
          × (u.wire ≡ t.wire ++ stop_m0 ∷ stop_m1 ∷ [])
          × (decode 9 stop_m0 ≡ some (record { motor = 0; forward = true; speed = 0 }))
          × (decode 9 stop_m1 ≡ some (record { motor = 1; forward = true; speed = 0 })))

  Waits-or-Due : (t : Qik) → Waits env t ⊎ Due env t
  Waits-or-Due t = ground arith

module _ (env : ℕ → Moment) (spins horizon : ℕ) (host : Host) where
  process_qik_state-Watched :
      (t : Qik)
      → Idle env t
      → Ticks env spins horizon
      → t.moment + 1 + (spins + 2) * 2 ≤ horizon
      → (u : Qik) × (process_qik_state env spins t ≡ returned tt u) × Watched env t u
  process_qik_state-Watched t i ticks end = elim (Waits-or-Due env t) [
    | inl waits ↦
        let (u, pass, p) =
          process_qik_state-Passed env spins horizon [] t waits ticks i.empty i.stamped
            (omega (arith, end)) in
        (u, pass, inl (waits, ground (arith, p.wire_grows, i.opened, append-nil t.wire)))
    | inr due ↦
        let (u, pass, empty, free, wire, first, second) =
          process_qik_state-Due env spins horizon [] t due ticks i.empty i.stamped i.free
            (omega arith) (omega (arith, end)) in
        (u, pass, inr (due, ground (arith, wire, i.opened), first, second))
  ]

  -- An order that starts the motors, with the hypotheses of the order above and a clock that goes on
  -- for one pass more. The first pass writes its two commands to the port, and sets the shutoff time
  -- two seconds behind a reading of the clock during that pass. If nothing is queued before the next
  -- pass, that pass writes the two commands that stop the motors if the clock is then beyond the
  -- shutoff time, and nothing if it is not.
  pub start_order-stops :
      (c : Client) (d : Direction) (rest : Bytes) (fs : List Frame)
      → Orders host c d true rest
      → Ready env fs c.qik
      → Ticks env spins horizon
      → c.qik.moment + 2 + (spins + 2) * (length fs + 4) ≤ horizon
      → (q : Qik) × (t : Qik) × (u : Qik) × (a : Bytes) × (b : Bytes) × (j : ℕ) × (accept_request
            host c
          ≡ returned tt
              (record { input = rest; output = c.output ++ ok_line ∷ []; closed = true; qik = q }))
        × (process_qik_state env spins q ≡ returned tt t)
        × Commands d true a b
        × (t.wire ≡ c.qik.wire ++ (payloads fs ++ a ∷ b ∷ []))
        × (c.qik.moment < j)
        × (j < t.moment)
        × (t.motor_shutoff_time ≡ (get_current_time (env j) + motor_timeout) % 2 ^ 64)
        × (process_qik_state env spins t ≡ returned tt u)
        × Watched env t u
  start_order-stops c d rest fs o r ticks end =
      let (q, t, a, b, run, pass, ab, apart, free, p) =
        order-Passed env spins horizon host c d true rest fs o r ticks (omega (arith, end)) in
      let soon : t.moment ≤ q.moment + 1 + (spins + 2) * (length fs + 2) =
        subst (λ n. t.moment ≤ q.moment + 1 + (spins + 2) * n)
          (length-append fs (frame a false ∷ frame b false ∷ [])) p.soon in
      let (j, low, high, set) = p.shutoff_set (
        LastStarts-append fs (frame a false) (frame b false)
          (λ stale. starts_motor-decode 9 b stale ab.1)) in
      let (u, next, watched) =
        process_qik_state-Watched t
          (record {
            empty = p.queues;
            free = free;
            opened = p.port_same ∙ (apart.port_same ∙ r.opened);
            stamped = p.stamped;
          })
          ticks (omega (arith, soon, apart.moment_same, end)) in
      (
        q,
        t,
        u,
        a,
        b,
        j,
        run,
        pass,
        ab,
        order-wire env spins horizon host fs a b c.qik q t r.opened apart p,
        omega (arith, low, apart.moment_same),
        high,
        set,
        next,
        watched,
      )
