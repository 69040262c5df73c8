-- ===== src/Qik/Typed/Motor.antt =====
-- The functions that queue motor commands, and `processMotorControl`.
use telebra.Base.{arith, Bytes, false, ignore, Any, Keeps, Keeps-ignore}
use telebra.Qik.Queue.{queue_qik_command}
use telebra.Qik.Motor.Kept.{IsOrder, IsOrder-bytes}
use telebra.Qik.Typed.{IsTyped}
use telebra.Qik.Typed.Queue.{queue_qik_command-Keeps}

pub order-IsTyped :
    (buf : Bytes) → IsOrder buf → Keeps IsTyped Any (ignore (queue_qik_command buf false))
order-IsTyped buf h =
    let (b, four) = IsOrder-bytes buf h in
    Keeps-ignore Any _ (queue_qik_command-Keeps buf false b (omega (arith, four)))
