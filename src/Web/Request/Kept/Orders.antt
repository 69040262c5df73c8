-- ===== src/Web/Request/Kept/Orders.antt =====
-- What a request can do to the driver.
use telebra.Base.{
  ◌+◌, ◌≡◌, refl, true, false, Bool-cases, inl, inr, arith, List, [], ◌∷◌, ◌++◌, append_assoc,
  append-nil, Bytes, length, All, All-append, dec_lt, Any, Ensures, ignore,
}
use telebra.Qik.State.{Qik}
use telebra.Qik.Queue.{queue_qik_command}
use telebra.Qik.Queue.Spans.{Holds-same}
use telebra.Qik.Queue.Fifo.{Frame, encode_all, Queues, size_used_lem, enqueued-Queues}
use telebra.Qik.Commands.Laws.{
  Apart, Apart-trans, enqueued-Apart, frame, ignore-fits, ignore-full, ignore-blocked,
}
use telebra.Qik.Motor.Kept.{IsOrder, IsOrder-bytes, process_motor_control-Keeps}
use telebra.Web.State.{Client, Host}
use telebra.Web.Request.{accept_request}
use telebra.Web.Request.Kept.{accept_request-Keeps}

-- A command in the queue that asks a motor for something, with no response.
abbrev pub IsOrderFrame : Frame → Type 0
IsOrderFrame f = IsOrder f.payload × (f.expects ≡ false)

-- From `s`, with the commands `fs`, to `t`: motor commands came behind them, and nothing else changed
-- but the mutex.
pub record Grown (s : Qik) (fs : List Frame) (t : Qik) : Type 0 where
  pub more : List Frame
  pub queues : Queues t (fs ++ more)
  pub orders : All IsOrderFrame more
  pub apart : Apart s t

held-Apart : (t : Qik) → Apart t (record t { mutex = true })
held-Apart t = ground arith

order-Ensures :
    (s : Qik) (fs : List Frame) (buf : Bytes) (t : Qik)
    → IsOrder buf
    → Grown s fs t
    → Ensures Any (Grown s fs) (ignore (queue_qik_command buf false) t)
order-Ensures s fs buf t o g =
    let used = size_used_lem t (encode_all (fs ++ g.more)) g.queues.holds in
    let (b, four) = IsOrder-bytes buf o in
    elim (Bool-cases t.mutex) [
      | inl held ↦ rw (ignore-blocked buf false t held) g
      | inr free ↦ elim (dec_lt (length (encode_all (fs ++ g.more)) + length buf + 2) 1024) [
        | yes fits ↦ rw (ignore-fits buf false t free (omega (arith, used))) (
          tt,
          record {
            more = g.more ++ frame buf false ∷ [];
            queues =
                rw (append_assoc fs g.more (frame buf false ∷ [])) at
                  (enqueued-Queues t (fs ++ g.more) buf false g.queues (omega (arith, four)) fits);
            orders = All-append IsOrderFrame g.more (frame buf false ∷ []) g.orders ((o, refl), tt);
            apart = Apart-trans g.apart (enqueued-Apart buf false t);
          },
        )
        | no full ↦ rw (ignore-full buf false t free (omega (arith, used))) (
          tt,
          record {
            more = g.more;
            queues = record {
              holds = Holds-same _ _ refl refl refl g.queues.holds;
              short = g.queues.short;
            };
            orders = g.orders;
            apart = Apart-trans g.apart (held-Apart t);
          },
        )
      ]
    ]

-- Whatever a client sends, and however the handler ends: where the queue holds whole commands, the
-- request has at most put whole motor commands for the controller behind them. It has written
-- nothing to the port, taken nothing out of the queue, and left the clock and the automatic stop as
-- they were.
pub accept_request-Grown :
    (host : Host) (c : Client) (fs : List Frame)
    → Queues c.qik fs
    → Ensures Any (λ d. Grown c.qik fs d.qik) (accept_request host c)
accept_request-Grown host c fs q =
    (accept_request-Keeps (Grown c.qik fs)
        (process_motor_control-Keeps (Grown c.qik fs)
          (λ buf o. record { at = λ t g. order-Ensures c.qik fs buf t o g }))
        host).at
      c (record { more = []; queues = rw (append-nil fs) q; orders = tt; apart = ground arith })
