-- ===== src/Qik/Threads/Tests.antt =====
-- The theorems on the two threads at concrete runs.
use telebra.Base.{◌≡◌, refl, true, [], ◌∷◌, arith}
use telebra.Qik.Queue.{size_used, put_byte}
use telebra.Qik.Threads.{
  outside, testing, System, Run, starts, begins, puts, unlocks, tests, takes_length, takes_flag,
  takes_byte, sends,
}
use telebra.Qik.Threads.Queueing.{IsQuiet}
use telebra.Qik.Threads.Race.{AnyTime, Run-torn}

-- One command of one byte, sent, while the next one is on its way into the ring.
one_sent : (s : System) × Run IsQuiet ((5 ∷ []) ∷ (6 ∷ []) ∷ []) s × (s.sent ≡ (5 ∷ []) ∷ [])
unfolding size_used put_byte
one_sent =
    let queued =
      unlocks
        (puts 5 []
          (puts 1 (5 ∷ [])
            (puts 1 (1 ∷ 5 ∷ []) (begins (5 ∷ []) true starts refl (omega arith)) refl) refl)
          refl)
        refl in
    let found = tests queued refl (omega arith) refl in
    let second =
      puts 1 (1 ∷ 6 ∷ []) (begins (6 ∷ []) true (takes_length found refl) refl (omega arith))
        refl in
    (_, sends (5 ∷ []) (takes_byte 0 [] (takes_flag 1 second refl) refl) refl, refl)

Run-torn_example :
    (s : System) × Run AnyTime ((0xaa ∷ 9 ∷ 8 ∷ 50 ∷ []) ∷ []) s
    × (s.sent ≡ (0 ∷ 0 ∷ 0 ∷ 0 ∷ []) ∷ [])
    × (s.producer ≡ outside)
    × (s.consumer ≡ testing)
    × (s.qik.head ≡ s.qik.tail)
Run-torn_example = Run-torn 9 8 50
