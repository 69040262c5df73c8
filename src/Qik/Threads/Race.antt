-- ===== src/Qik/Threads/Race.antt =====
-- Without that, the main thread can read a command before it is there.
use telebra.Base.{ℕ, ◌≡◌, refl, false, [], ◌∷◌, arith}
use telebra.Qik.Queue.{size_used, put_byte}
use telebra.Qik.Threads.{
  outside, testing, System, Run, starts, begins, puts, unlocks, tests, takes_length, takes_flag,
  takes_byte, sends,
}

abbrev pub AnyTime : System → Type 0
AnyTime s = Unit

-- Where the main thread may go on from its test at any time, a command of four bytes can be torn: the
-- main thread finds the queue not empty as soon as the length is there, reads the old bytes behind
-- it, which are zeros in a new queue, and sends four zeros. At the end the queue is empty, both
-- threads are done, and the command was never sent.
pub Run-torn :
    (device code value : ℕ)
    → (s : System) × Run AnyTime ((0xaa ∷ device ∷ code ∷ value ∷ []) ∷ []) s
      × (s.sent ≡ (0 ∷ 0 ∷ 0 ∷ 0 ∷ []) ∷ [])
      × (s.producer ≡ outside)
      × (s.consumer ≡ testing)
      × (s.qik.head ≡ s.qik.tail)
unfolding size_used put_byte
Run-torn device code value =
    let begun = begins (0xaa ∷ device ∷ code ∷ value ∷ []) false starts refl (omega arith) in
    let length_there = puts 4 _ begun refl in
    let found = tests length_there refl (omega arith) tt in
    let read =
      takes_byte 0 (0 ∷ 0 ∷ 0 ∷ [])
        (takes_byte 1 (0 ∷ 0 ∷ [])
          (takes_byte 2 (0 ∷ [])
            (takes_byte 3 [] (takes_flag 4 (takes_length found refl) refl) refl) refl)
          refl)
        refl in
    let torn = sends (0 ∷ 0 ∷ 0 ∷ 0 ∷ []) read refl in
    let queued =
      puts value []
        (puts code (value ∷ [])
          (puts device (code ∷ value ∷ []) (puts 0xaa _ (puts 0 _ torn refl) refl) refl) refl)
        refl in
    (_, unlocks queued refl, refl, refl, refl, refl)
