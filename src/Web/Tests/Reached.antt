-- ===== src/Web/Tests/Reached.antt =====
-- The theorems on any calls in any order, behind an order for a turn to the left.
use telebra.Base.{◌≢◌, inl, true, [], arith, Ensures, Any, fault}
use telebra.Qik.State.{Qik}
use telebra.Qik.Motor.Drive.{left}
use telebra.Qik.Serial.{process_qik_state}
use telebra.Qik.Typed.{IsTyped}
use telebra.Qik.Whole.{IsWhole}
use telebra.Web.Request.{accept_request}
use telebra.Web.Request.Kept.Orders.{Grown, accept_request-Grown}
use telebra.Main.Order.{order-drives}
use telebra.Main.Reached.{
  Reached, starts, opens, requests, passes, Reached-IsTyped, Reached-no_fault,
}
use telebra.Web.Tests.{page, client, turn_left, initial-Queues}
use telebra.Web.Tests.Orders.{seconds, seconds-Ticks, driver, turn_left-Orders, opened-Ready}

-- The port is opened, the order comes, and the commands are sent.
ordered : (q : Qik) × Reached seconds q
ordered =
    let (q, t, a, b, run, pass, both, wire, empty, free) =
      order-drives seconds 1 1000 page driver left true [] [] turn_left-Orders opened-Ready
        seconds-Ticks (omega arith) in
    (t, passes 1 (requests page driver (opens true starts) (inl run)) (inl pass))

Reached-IsTyped_example : IsTyped ordered.0
Reached-IsTyped_example = Reached-IsTyped seconds ordered.0 ordered.1

Reached-no_fault_example :
    IsWhole ordered.0 × (process_qik_state seconds 1 ordered.0 ≢ fault ordered.0)
Reached-no_fault_example = Reached-no_fault seconds ordered.0 ordered.0 1 ordered.1

accept_request-Grown_example :
    Ensures Any
      (λ d. Grown (client turn_left).qik [] d.qik)
      (accept_request page (client turn_left))
accept_request-Grown_example = accept_request-Grown page (client turn_left) [] initial-Queues
