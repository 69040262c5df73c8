-- ===== src/Main/Order.antt =====
-- An order of the web page, from its request through the queue to the controller: the web server's
-- `accept_request`, and then passes of `processQikState` in the main thread.
pub mod Stop
use telebra.Base.{
  ℕ, ◌+◌, ◌*◌, ◌%◌, ◌^◌, ◌≤◌, ◌<◌, ◌≡◌, ◌⊎◌, inl, inr, refl, ◌∙◌, Bool, true, false, some, List, [],
  ◌∷◌, ◌++◌, append-nil, arith, if◌then◌else◌, Bytes, length, length-append, pos, minus_one,
  Outcome, returned,
}
use mathlib.Core.Path.{subst}
use telebra.Qik.State.{Qik, motor_timeout}
use telebra.Qik.Queue.Fifo.{Frame, encode_all, Queues}
use telebra.Qik.Commands.Protocol.{decode, starts_motor-decode}
use telebra.Qik.Commands.Laws.{frame, Apart}
use telebra.Qik.Motor.Drive.{Direction, action_speed, turns_forward}
use telebra.Qik.Serial.{Moment, get_current_time, process_qik_state}
use telebra.Qik.Serial.Send.{Stamped, Shutoff}
use telebra.Qik.Serial.Drain.{Ticks, Starts, LastStarts, payloads}
use telebra.Qik.Serial.Watchdog.{
  payloads-append, stop_m0, stop_m1, Due, Stamped-later, process_qik_state-Due,
}
use telebra.Qik.Serial.Waiting.{Waits, Passed, process_qik_state-Passed}
use telebra.Web.State.{Client, Host}
use telebra.Web.GetLine.Headers.{Terminator, terminator, Ends, render_headers, WellEnded}
use telebra.Web.Cgi.Declared.{declared}
use telebra.Web.Cgi.Post.{ok_line, order}
use telebra.Web.Request.{is_dir, accept_request}
use telebra.Web.Request.Drive.{post_line, accept_request-drives}

-- The client sends the order, in a well-formed request that declares its length, and then `rest`.
pub record Orders (host : Host) (c : Client) (d : Direction) (go : Bool) (rest : Bytes)
    : Type 0 where
  pub version : Bytes
  pub line_end : Terminator
  pub header : Bytes
  pub header_end : Terminator
  pub headers : List (Bytes × Terminator)
  pub blank : Terminator
  pub request :
      c.input
      ≡ render_headers
          ((post_line version, line_end) ∷ (header, header_end) ∷ headers)
          (terminator blank ++ (order d go ++ rest))
  pub lines :
      WellEnded
        ((post_line version, line_end) ∷ (header, header_end) ∷ headers)
        (terminator blank ++ (order d go ++ rest))
  pub ends : Ends blank (order d go ++ rest)
  pub counted : declared minus_one ((header, header_end) ∷ headers) ≡ pos (length (order d go))
  pub no_dir : is_dir host.stack_st_mode ≡ false

-- The driver has `fs` queued and room for 12 bytes, no one holds the mutex, the stop is not due, and
-- the port is open.
pub record Ready (env : ℕ → Moment) (fs : List Frame) (s : Qik) : Type 0 where
  pub queues : Queues s fs
  pub room : length (encode_all fs) + 12 < 1024
  pub free : s.mutex ≡ false
  pub waits : Waits env s
  pub stamped : Stamped env s
  pub opened : s.port_open ≡ true

-- The two commands of an order.
abbrev pub Commands : Direction → Bool → Bytes → Bytes → Type 0
Commands d go a b =
    (decode 9 a
      ≡ some (record { motor = 0; forward = (turns_forward d).0; speed = action_speed go }))
    × (decode 9 b
        ≡ some (record { motor = 1; forward = (turns_forward d).1; speed = action_speed go }))

module _ (env : ℕ → Moment) (spins horizon : ℕ) (host : Host) where
  -- The order is in the queue, and then on the wire.
  pub order-Passed :
      (c : Client) (d : Direction) (go : Bool) (rest : Bytes) (fs : List Frame)
      → Orders host c d go rest
      → Ready env fs c.qik
      → Ticks env spins horizon
      → c.qik.moment + 1 + (spins + 2) * (length fs + 2) ≤ horizon
      → (q : Qik) × (t : Qik) × (a : Bytes) × (b : Bytes) × (accept_request host c
          ≡ returned tt
              (record { input = rest; output = c.output ++ ok_line ∷ []; closed = true; qik = q }))
        × (process_qik_state env spins q ≡ returned tt t)
        × Commands d go a b
        × Apart c.qik q
        × (t.mutex ≡ false)
        × Passed env spins (fs ++ frame a false ∷ frame b false ∷ []) q t
  order-Passed c d go rest fs o r ticks end =
      let (q, a, b, run, da, db, queued, free, apart) =
        accept_request-drives host c o.version o.line_end o.header o.header_end o.headers o.blank d
          go rest fs o.request o.lines o.ends o.counted o.no_dir r.queues r.free r.room in
      let (t, pass, p) =
        process_qik_state-Passed env spins horizon (fs ++ frame a false ∷ frame b false ∷ []) q
          (rw (apart.moment_same, apart.shutoff_same) r.waits) ticks queued
          (Stamped-later env c.qik q r.stamped (inr apart.pending_same) apart.sent_same
            (omega (arith, apart.moment_same)))
          (rw (length-append fs (frame a false ∷ frame b false ∷ []))
            (omega (arith, apart.moment_same, end))) in
      (q, t, a, b, run, pass, (da, db), apart, p.mutex_same ∙ free, p)

  -- The commands that were queued, and then those of the order.
  pub order-wire :
      (fs : List Frame) (a b : Bytes) (s q t : Qik)
      → s.port_open ≡ true
      → Apart s q
      → Passed env spins (fs ++ frame a false ∷ frame b false ∷ []) q t
      → t.wire ≡ s.wire ++ (payloads fs ++ a ∷ b ∷ [])
  order-wire fs a b s q t opened apart p = ground (
    arith,
    p.wire_grows,
    opened,
    apart.port_same,
    apart.wire_same,
    payloads-append fs (frame a false ∷ frame b false ∷ []),
  )

  -- An order of the page, from the request to the controller. The driver has commands queued and room
  -- for 12 bytes, the mutex is free, the automatic stop is not due, the port is open, the clock goes
  -- on, and the uninitialised `st` does not look like a directory. `accept_request` sends the status line and closes the connection; a pass of
  -- `processQikState` behind it writes to the port what was queued, and then two commands that the
  -- controller reads as motor 0 and motor 1 turning in the order's sense at full speed or at none;
  -- the queue is then empty, and the mutex free.
  pub order-drives :
      (c : Client) (d : Direction) (go : Bool) (rest : Bytes) (fs : List Frame)
      → Orders host c d go rest
      → Ready env fs c.qik
      → Ticks env spins horizon
      → c.qik.moment + 1 + (spins + 2) * (length fs + 2) ≤ horizon
      → (q : Qik) × (t : Qik) × (a : Bytes) × (b : Bytes) × (accept_request host c
          ≡ returned tt
              (record { input = rest; output = c.output ++ ok_line ∷ []; closed = true; qik = q }))
        × (process_qik_state env spins q ≡ returned tt t)
        × Commands d go a b
        × (t.wire ≡ c.qik.wire ++ (payloads fs ++ a ∷ b ∷ []))
        × Queues t []
        × (t.mutex ≡ false)
  order-drives c d go rest fs o r ticks end =
      let (q, t, a, b, run, pass, ab, apart, free, p) = order-Passed c d go rest fs o r ticks end in
      (q, t, a, b, run, pass, ab, order-wire fs a b c.qik q t r.opened apart p, p.queues, free)
