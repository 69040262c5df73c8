-- ===== src/Qik/Workers.antt =====
-- Any number of threads in `QueueQikCommand`, with the mutex taken and released, against the main
-- thread's `DequeueQikCommand`: the steps of all in any order.
pub mod Exclusion
pub mod Order
pub mod Calls
pub mod Mixed
mod Tests
use telebra.Base.{
  ℕ, suc, ◌+◌, ◌%◌, ◌≤◌, ◌<◌, ◌≡◌, ◌≢◌, refl, Bool, true, false, List, [], ◌∷◌, ◌++◌, Bytes, length,
  ◌==◌, if◌then◌else◌,
}
use telebra.Qik.State.{Qik, initial, qik_action_queue_size}
use telebra.Qik.Queue.{flag, size_used, put_byte}
use telebra.Qik.Queue.Fifo.{Frame, encode}
use telebra.Qik.Threads.{Consumer, testing, at_length, at_flag, at_payload, head_byte, behind_head}

-- A thread with the commands that it has still to queue behind the current call: before the lock,
-- behind the lock and before the test for room, or behind the test with these bytes still to put.
pub data Worker : Type 0 where
  calling : List Frame → Worker
  locked : Frame → List Frame → Worker
  filling : Bytes → List Frame → Worker

pub record Shared : Type 0 where
  pub qik : Qik
  pub workers : ℕ → Worker
  pub consumer : Consumer
  pub sent : List Bytes

abbrev pub update {ℓ} : {A : Type ℓ} → (ℕ → A) → ℕ → A → ℕ → A
update f i a j = if i == j then a else f j

-- The commands that each thread is to queue.
abbrev pub begun : (ℕ → List Frame) → Shared
begun todo = record {
  qik = initial;
  workers = λ i. calling (todo i);
  consumer = testing;
  sent = [];
}

abbrev pub lock : Bool → Qik → Qik
lock b q = record q { mutex = b }

-- The runs, with the commands for which there was room and the threads that they are of, in order.
-- `may_test` is what is known when the main thread finds that the head is not the tail.
pub data Runs (may_test : Shared → Type 0) (todo : ℕ → List Frame)
    : List (ℕ × Frame) → Shared → Type 0 where
  starts : Runs may_test todo [] (begun todo)
  -- `pthread_mutex_lock`
  locks :
      {log : List (ℕ × Frame)} {s : Shared} (i : ℕ) (f : Frame) (fs : List Frame)
      → Runs may_test todo log s
      → s.workers i ≡ calling (f ∷ fs)
      → s.qik.mutex ≡ false
      → Runs may_test todo log
          (record s { qik = lock true s.qik; workers = update s.workers i (locked f fs) })
  accepts :
      {log : List (ℕ × Frame)} {s : Shared} (i : ℕ) (f : Frame) (fs : List Frame)
      → Runs may_test todo log s
      → s.workers i ≡ locked f fs
      → size_used s.qik + length f.payload + 2 < qik_action_queue_size
      → Runs may_test todo
          (log ++ (i, f) ∷ [])
          (record s { workers = update s.workers i (filling (encode f) fs) })
  -- The return for want of space, with the mutex locked.
  refuses :
      {log : List (ℕ × Frame)} {s : Shared} (i : ℕ) (f : Frame) (fs : List Frame)
      → Runs may_test todo log s
      → s.workers i ≡ locked f fs
      → qik_action_queue_size ≤ size_used s.qik + length f.payload + 2
      → Runs may_test todo log (record s { workers = update s.workers i (calling fs) })
  puts :
      {log : List (ℕ × Frame)} {s : Shared} (i b : ℕ) (bs : Bytes) (fs : List Frame)
      → Runs may_test todo log s
      → s.workers i ≡ filling (b ∷ bs) fs
      → Runs may_test todo log
          (record s { qik = put_byte b s.qik; workers = update s.workers i (filling bs fs) })
  -- `pthread_mutex_unlock`
  unlocks :
      {log : List (ℕ × Frame)} {s : Shared} (i : ℕ) (fs : List Frame)
      → Runs may_test todo log s
      → s.workers i ≡ filling [] fs
      → Runs may_test todo log
          (record s { qik = lock false s.qik; workers = update s.workers i (calling fs) })
  tests :
      {log : List (ℕ × Frame)} {s : Shared}
      → Runs may_test todo log s
      → s.consumer ≡ testing
      → s.qik.head ≢ s.qik.tail
      → may_test s
      → Runs may_test todo log (record s { consumer = at_length })
  takes_length :
      {log : List (ℕ × Frame)} {s : Shared}
      → Runs may_test todo log s
      → s.consumer ≡ at_length
      → Runs may_test todo log
          (record s { qik = behind_head s.qik; consumer = at_flag (head_byte s.qik) })
  takes_flag :
      {log : List (ℕ × Frame)} {s : Shared} (len : ℕ)
      → Runs may_test todo log s
      → s.consumer ≡ at_flag len
      → Runs may_test todo log (record s { qik = behind_head s.qik; consumer = at_payload len [] })
  takes_byte :
      {log : List (ℕ × Frame)} {s : Shared} (n : ℕ) (got : Bytes)
      → Runs may_test todo log s
      → s.consumer ≡ at_payload (suc n) got
      → Runs may_test todo log (record s {
        qik = behind_head s.qik;
        consumer = at_payload n (got ++ head_byte s.qik ∷ []);
      })
  sends :
      {log : List (ℕ × Frame)} {s : Shared} (got : Bytes)
      → Runs may_test todo log s
      → s.consumer ≡ at_payload 0 got
      → Runs may_test todo log (record s { consumer = testing; sent = s.sent ++ got ∷ [] })
