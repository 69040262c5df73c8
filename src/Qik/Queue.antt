-- ===== src/Qik/Queue.antt =====
-- `QueueQikCommand` and the reading half of `DequeueQikCommand`: a ring of 1024 bytes that holds
-- one frame for each command (its length, its response flag, its payload).
pub mod Spans
pub mod Pull
pub mod Fifo
use telebra.Base.{
  ℕ, zero, suc, ◌+◌, ◌-◌, ◌%◌, Bool, true, false, [], ◌∷◌, ltb, if◌then◌else◌, Bytes, length,
  get_or, set, Outcome, returned, blocked, fault,
}
use telebra.Qik.State.{Qik, M, qik_action_queue_size}

abbrev pub flag : Bool → ℕ
flag true = 1
flag false = 0

-- `sizeUsed`: a negative difference gets the size of the queue added.
unfoldable pub size_used : Qik → ℕ
size_used s = if ltb s.tail s.head then s.tail + qik_action_queue_size - s.head else s.tail - s.head

unfoldable pub put_byte : ℕ → Qik → Qik
put_byte b s = record s {
  queue = set s.queue s.tail b;
  tail = (s.tail + 1) % qik_action_queue_size;
}

-- the loop over the payload
unfoldable pub put_bytes : Bytes → Qik → Qik
put_bytes [] s = s
put_bytes (b ∷ bs) s = put_bytes bs (put_byte b s)

-- `QueueQikCommand`. The early return for want of space leaves the mutex locked, as the code does.
unfoldable pub queue_qik_command : Bytes → Bool → M ℕ
queue_qik_command buf expect_response s =
    if s.mutex
    then blocked s
    else if ltb (size_used s + length buf + 2) qik_action_queue_size
    then returned 1 (
        let headed = put_byte (flag expect_response) (put_byte (length buf) s) in
        record (put_bytes buf headed) { mutex = false })
    else returned 0 (record s { mutex = true })

-- Read the byte at the head of the queue, and step over it.
unfoldable pub pull_byte : M ℕ
pull_byte s =
    returned (get_or s.queue s.head 0) (record s { head = (s.head + 1) % qik_action_queue_size })

-- The loop that fills `tmpCmd`, from index `i` on, `n` bytes to go: a write at or past the end of
-- its 16 bytes is a fault.
unfoldable pub pull_payload : (n i : ℕ) → Bytes → M Bytes
pull_payload zero i tmp_cmd s = returned tmp_cmd s
pull_payload (suc n) i tmp_cmd s =
    let next = record s { head = (s.head + 1) % qik_action_queue_size } in
    let rest = pull_payload n (i + 1) (set tmp_cmd i (get_or s.queue s.head 0)) next in
    if ltb i 16 then rest else fault s
