-- ===== src/Qik/Threads.antt =====
-- `QueueQikCommand` in one thread against `DequeueQikCommand` in the main thread, which does not take
-- the mutex: the steps of both in any order. The mutex lets one thread queue at a time.
pub mod Queueing
pub mod Safe
pub mod Race
mod Tests
use telebra.Base.{
  ℕ, suc, ◌+◌, ◌%◌, ◌≤◌, ◌<◌, ◌≡◌, ◌≢◌, Bool, true, false, List, [], ◌∷◌, ◌++◌, Bytes, length,
  get_or,
}
use telebra.Qik.State.{Qik, initial, qik_action_queue_size}
use telebra.Qik.Queue.{flag, size_used, put_byte}

-- The thread that queues: outside, or behind the test for room with these bytes still to put.
pub data Producer : Type 0 where
  outside : Producer
  putting : Bytes → Producer

-- The main thread: at the test of the loop, before it reads the length, before it reads the response
-- flag, and with `n` bytes of the payload still to read behind those that it has.
pub data Consumer : Type 0 where
  testing : Consumer
  at_length : Consumer
  at_flag : (len : ℕ) → Consumer
  at_payload : (n : ℕ) → (got : Bytes) → Consumer

-- `sent` holds what was given to `sendCommand`, the first one first.
pub record System : Type 0 where
  pub qik : Qik
  pub producer : Producer
  pub consumer : Consumer
  pub sent : List Bytes

abbrev pub fresh : System
fresh = record { qik = initial; producer = outside; consumer = testing; sent = [] }

-- The byte at the head, and the globals with the head behind it.
abbrev pub head_byte : Qik → ℕ
head_byte q = get_or q.queue q.head 0

abbrev pub behind_head : Qik → Qik
behind_head q = record q { head = (q.head + 1) % qik_action_queue_size }

-- The runs, with the payloads of the commands for which there was room, in order. `may_test` is what
-- is known when the main thread finds that the head is not the tail.
pub data Run (may_test : System → Type 0) : List Bytes → System → Type 0 where
  starts : Run may_test [] fresh
  begins :
      {ps : List Bytes} {s : System} (buf : Bytes) (expects : Bool)
      → Run may_test ps s
      → s.producer ≡ outside
      → size_used s.qik + length buf + 2 < qik_action_queue_size
      → Run may_test
          (ps ++ buf ∷ [])
          (record s { producer = putting (length buf ∷ flag expects ∷ buf) })
  puts :
      {ps : List Bytes} {s : System} (b : ℕ) (bs : Bytes)
      → Run may_test ps s
      → s.producer ≡ putting (b ∷ bs)
      → Run may_test ps (record s { qik = put_byte b s.qik; producer = putting bs })
  unlocks :
      {ps : List Bytes} {s : System}
      → Run may_test ps s
      → s.producer ≡ putting []
      → Run may_test ps (record s { producer = outside })
  tests :
      {ps : List Bytes} {s : System}
      → Run may_test ps s
      → s.consumer ≡ testing
      → s.qik.head ≢ s.qik.tail
      → may_test s
      → Run may_test ps (record s { consumer = at_length })
  takes_length :
      {ps : List Bytes} {s : System}
      → Run may_test ps s
      → s.consumer ≡ at_length
      → Run may_test ps (record s { qik = behind_head s.qik; consumer = at_flag (head_byte s.qik) })
  takes_flag :
      {ps : List Bytes} {s : System} (len : ℕ)
      → Run may_test ps s
      → s.consumer ≡ at_flag len
      → Run may_test ps (record s { qik = behind_head s.qik; consumer = at_payload len [] })
  takes_byte :
      {ps : List Bytes} {s : System} (n : ℕ) (got : Bytes)
      → Run may_test ps s
      → s.consumer ≡ at_payload (suc n) got
      → Run may_test ps (record s {
        qik = behind_head s.qik;
        consumer = at_payload n (got ++ head_byte s.qik ∷ []);
      })
  sends :
      {ps : List Bytes} {s : System} (got : Bytes)
      → Run may_test ps s
      → s.consumer ≡ at_payload 0 got
      → Run may_test ps (record s { consumer = testing; sent = s.sent ++ got ∷ [] })
