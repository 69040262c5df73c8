-- ===== src/Qik/Serial/Await.antt =====
-- The wait of `sendCommand`, and what the reading thread may do meanwhile.
use telebra.Base.{
  ℕ, zero, suc, ◌+◌, ◌%◌, ◌^◌, ◌≤◌, ◌<◌, ◌≡◌, refl, ◌⊎◌, inl, inr, Bool, true, not, ◌&&◌, [], ◌∷◌,
  arith, ltb, ◌==◌, Bool-cases, Bytes, returned,
}
use telebra.Qik.State.{Qik, cmd_timeout_usec}
use telebra.Qik.Response.{process_response}
use telebra.SerialPort.{read_serial}
use telebra.Qik.Serial.{Moment, get_current_time, advance, await_response}

-- `t` differs from `s` only by responses: `pendingCmd` may be cleared, lines may be printed.
pub record Waited (s t : Qik) : Type 0 where
  pub queue_same : t.queue ≡ s.queue
  pub head_same : t.head ≡ s.head
  pub tail_same : t.tail ≡ s.tail
  pub mutex_same : t.mutex ≡ s.mutex
  pub sent_same : t.cmd_sent_timestamp ≡ s.cmd_sent_timestamp
  pub shutoff_same : t.motor_shutoff_time ≡ s.motor_shutoff_time
  pub port_same : t.port_open ≡ s.port_open
  pub wire_same : t.wire ≡ s.wire
  pub pending_same : (t.pending_cmd ≡ 0) ⊎ (t.pending_cmd ≡ s.pending_cmd)

Waited-trans : {s t u : Qik} → Waited s t → Waited t u → Waited s u
Waited-trans a b = ground arith

pub read_serial-Waited : (bs : Bytes) (s : Qik) → Waited s (read_serial bs s)
unfolding read_serial process_response
read_serial-Waited [] s = ground arith
read_serial-Waited (b ∷ bs) s =
    Waited-trans (ground arith) (read_serial-Waited bs (process_response b s))

module _ (env : ℕ → Moment) where
  pub advance-Waited : (s : Qik) → Waited s (advance env s)
  unfolding advance
  advance-Waited s = ground (arith, read_serial-Waited (env s.moment).received s)

  pub moment-advance : (s : Qik) → (advance env s).moment ≡ s.moment + 1
  unfolding advance
  moment-advance s = refl

  -- The time at which the pending command counts as lost.
  abbrev pub deadline : Qik → ℕ
  deadline s = (s.cmd_sent_timestamp + cmd_timeout_usec) % 2 ^ 64

  -- The test of the loop, after one reading of the clock.
  abbrev spins : Qik → Bool
  spins s =
      ltb (get_current_time (env s.moment)) (deadline (advance env s))
      && not ((advance env s).pending_cmd == 0)

  abbrev pub Ends : ℕ → Qik → Type 0
  Ends k s = (s.pending_cmd ≡ 0) ⊎ (deadline s ≤ get_current_time (env (s.moment + k)))

  -- While the loop goes on, the end lies further on.
  still_early :
      (s : Qik) (k : ℕ) → spins s ≡ true → Ends k s → (j : ℕ) × Ends j (advance env s) × (k ≡ suc j)
  still_early s zero spin h = absurd (let w = advance-Waited s in ground arith)
  still_early s (suc j) spin (inl none_pending) = absurd (let w = advance-Waited s in ground arith)
  still_early s (suc j) spin (inr late) = (
    j,
    inr (
        let w = advance-Waited s in
        let at : s.moment + suc j ≡ (advance env s).moment + j = omega (arith, moment-advance s) in
        rw (w.sent_same, ← at) late),
    refl,
  )

  -- The wait ends if nothing is pending, or the `k`-th reading of the clock from now is past the
  -- deadline and there are more than `k` rounds.
  pub await_response-Waited :
      (n k : ℕ) (s : Qik)
      → k < n
      → Ends k s
      → (t : Qik) × (await_response env n s ≡ returned tt t)
        × Waited s t
        × (s.moment < t.moment)
        × (t.moment ≤ s.moment + k + 1)
  unfolding await_response
  await_response-Waited zero k s lt h = absurd (omega arith)
  await_response-Waited (suc n) k s lt h = elim (Bool-cases (spins s)) [
    | inl spin ↦
        let (j, later, e) = still_early s k spin h in
        let (t, run, w, below, above) =
          await_response-Waited n j (advance env s) (omega arith) later in
        (
          t,
          rw spin run,
          Waited-trans (advance-Waited s) w,
          omega (arith, moment-advance s),
          omega (arith, moment-advance s),
        )
    | inr over ↦ (
      advance env s,
      rw over refl,
      advance-Waited s,
      omega (arith, moment-advance s),
      omega (arith, moment-advance s),
    )
  ]
