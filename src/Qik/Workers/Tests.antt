-- ===== src/Qik/Workers/Tests.antt =====
-- The theorems on several threads at concrete runs.
use telebra.Base.{
  ℕ, zero, arith, ◌≡◌, ◌⊎◌, refl, inl, inr, Bool-cases, ◌==◌, true, false, some, List, [], ◌∷◌,
  ◌++◌, Bytes,
}
use telebra.Qik.Queue.Fifo.{Frame}
use telebra.Qik.Commands.Laws.{frame}
use telebra.Qik.Commands.Protocol.{decode}
use telebra.Qik.Motor.Drive.{up, down}
use telebra.Qik.Queue.{size_used, put_byte}
use telebra.Qik.Workers.{
  Shared, Runs, starts, locks, accepts, puts, unlocks, tests, takes_length, takes_flag, takes_byte,
  sends,
}
use telebra.Qik.Workers.Exclusion.{IsCalling, Runs-exclusive}
use telebra.Qik.Workers.Order.{left, IsSettled, Runs-in_order}
use telebra.Qik.Workers.Mixed.{two, order_frames, Mixed, Runs-Mixed}

Runs-Mixed_example :
    (a : Bytes) × (b : Bytes) × (a' : Bytes) × (b' : Bytes) × Mixed IsSettled
      (order_frames up true)
      (order_frames down false)
      (a ∷ a' ∷ b' ∷ b ∷ [])
    × (decode 9 a ≡ some (record { motor = 0; forward = true; speed = 255 }))
    × (decode 9 b ≡ some (record { motor = 1; forward = true; speed = 255 }))
    × (decode 9 a' ≡ some (record { motor = 0; forward = false; speed = 0 }))
    × (decode 9 b' ≡ some (record { motor = 1; forward = false; speed = 0 }))
Runs-Mixed_example = Runs-Mixed IsSettled up down true false

abbrev five : Frame
five = frame (5 ∷ []) true

abbrev six : Frame
six = frame (6 ∷ []) true

-- The first of two threads has queued its command and the main thread has sent it; the second has
-- the lock.
one_sent :
    (s : Shared) × Runs IsSettled (two (five ∷ []) (six ∷ [])) ((0, five) ∷ []) s
    × (s.sent ≡ (5 ∷ []) ∷ [])
unfolding size_used put_byte
one_sent =
    let begun = accepts 0 five [] (locks 0 five [] starts refl refl) refl (omega arith) in
    let queued =
      unlocks 0 []
        (puts 0 5 [] [] (puts 0 1 (5 ∷ []) [] (puts 0 1 (1 ∷ 5 ∷ []) [] begun refl) refl) refl)
        refl in
    let found = tests (locks 1 six [] queued refl refl) refl (omega arith) (λ j.
      elim (Bool-cases (1 == j)) [
        | inl second ↦ rw second (λ h. h)
        | inr other ↦ rw other (elim (Bool-cases (0 == j)) [
          | inl first ↦ rw first (λ h. h)
          | inr last ↦ rw last (λ h. h)
        ])
      ]) in
    (
      _,
      sends (5 ∷ []) (takes_byte 0 [] (takes_flag 1 (takes_length found refl) refl) refl) refl,
      refl,
    )

Runs-in_order_example :
    (later : List Bytes) × (lost : List Frame) × ((5 ∷ []) ∷ [] ≡ one_sent.0.sent ++ later)
    × (six ∷ [] ≡ lost ++ left (one_sent.0.workers 1))
    × ((lost ≡ []) ⊎ ((one_sent.0.qik.mutex ≡ true) × ((j : ℕ) → IsCalling (one_sent.0.workers j))))
Runs-in_order_example = Runs-in_order 1 one_sent.1

-- The first of two threads has the lock.
one_locked :
    (s : Shared) × Runs IsSettled (two (five ∷ []) (six ∷ [])) [] s × (IsCalling (s.workers 0) → ⊥)
one_locked = (_, locks 0 five [] starts refl refl, λ h. h)

Runs-exclusive_example : ((zero ≡ zero) × (one_locked.0.qik.mutex ≡ true))
Runs-exclusive_example = Runs-exclusive 0 0 one_locked.1 one_locked.2 one_locked.2
