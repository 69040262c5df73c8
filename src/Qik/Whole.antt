-- ===== src/Qik/Whole.antt =====
-- The queue holds whole commands that fit `tmpCmd`, whatever the threads do in turn.
use telebra.Base.{
  ℕ, zero, suc, ◌+◌, ◌%◌, ◌^◌, ◌≤◌, ◌≡◌, refl, ◌∙◌, inl, inr, Bool, true, false, not, ◌&&◌,
  Bool-cases, dec_lt, List, [], ◌∷◌, ◌++◌, arith, ltb, ◌==◌, if◌then◌else◌, Bytes, length,
  length-append, length-drop, drop, take, replicate, returned, ◌>>◌, >>=-returned, ==_iff, modify,
  ignore, Any, Sound, Sound-if, Sound-bind,
}
use telebra.Qik.State.{Qik, cmd_timeout_usec}
use telebra.Qik.Queue.{flag, pull_byte, pull_payload, queue_qik_command}
use telebra.Qik.Queue.Spans.{Holds-same}
use telebra.Qik.Queue.Fifo.{Frame, encode_all, Queues, size_used_lem, enqueued-Queues}
use telebra.Qik.Queue.Pull.{skip, pull_byte-Holds, pull_payload-Holds}
use telebra.Qik.Commands.{set_m0_forward, set_m1_forward}
use telebra.Qik.Commands.Laws.{frame, ignore-fits, ignore-full, ignore-blocked}
use telebra.SerialPort.{write_to_serial_port}
use telebra.Qik.Serial.{
  Moment, get_current_time, starts_motor, advance, now, await_response, mark_sent, set_shutoff,
  send_command, dequeue_one, dequeue_loop, dequeue_qik_command, check_shutoff, process_qik_state,
}
use telebra.Qik.Serial.Await.{advance-Waited}

abbrev pub IsWhole : Qik → Type 0
IsWhole s = (fs : List Frame) × Queues s fs

pub IsWhole-same :
    (s t : Qik) → t.queue ≡ s.queue → t.head ≡ s.head → t.tail ≡ s.tail → IsWhole s → IsWhole t
IsWhole-same s t q h e (fs, w) =
    (fs, record { holds = Holds-same t (encode_all fs) q h e w.holds; short = w.short })

-- Queueing a command that fits `tmpCmd`.
pub queue-Sound :
    (buf : Bytes) (e : Bool) (s : Qik)
    → length buf ≤ 16
    → IsWhole s
    → Sound Any IsWhole (ignore (queue_qik_command buf e) s)
queue-Sound buf e s short (fs, w) =
    let used = size_used_lem s (encode_all fs) w.holds in
    elim (Bool-cases s.mutex) [
      | inl held ↦ rw (ignore-blocked buf e s held) (fs, w)
      | inr free ↦ elim (dec_lt (length (encode_all fs) + length buf + 2) 1024) [
        | yes fits ↦
            rw (ignore-fits buf e s free (omega (arith, used)))
              (tt, (fs ++ frame buf e ∷ [], enqueued-Queues s fs buf e w short fits))
        | no full ↦
            rw (ignore-full buf e s free (omega (arith, used)))
              (tt, IsWhole-same s (record s { mutex = true }) refl refl refl (fs, w))
      ]
    ]

module _ (env : ℕ → Moment) where
  advance-IsWhole : (s : Qik) → IsWhole s → IsWhole (advance env s)
  advance-IsWhole s w =
      let a = advance-Waited env s in
      IsWhole-same s (advance env s) a.queue_same a.head_same a.tail_same w

  await_response-Sound : (n : ℕ) (s : Qik) → IsWhole s → Sound Any IsWhole (await_response env n s)
  unfolding await_response
  await_response-Sound zero s w = w
  await_response-Sound (suc n) s w =
      let a = advance-IsWhole s w in
      Sound-if Any IsWhole
        (ltb (get_current_time (env s.moment))
            (((advance env s).cmd_sent_timestamp + cmd_timeout_usec) % 2 ^ 64)
          && not ((advance env s).pending_cmd == 0))
        _ _ (await_response-Sound n (advance env s) a) (tt, a)

  mark_sent-Sound :
      (buf : Bytes) (e : Bool) (s : Qik) → IsWhole s → Sound Any IsWhole (mark_sent env buf e s)
  unfolding mark_sent now
  mark_sent-Sound buf true s w =
      (tt, IsWhole-same (advance env s) _ refl refl refl (advance-IsWhole s w))
  mark_sent-Sound buf false s w = (tt, IsWhole-same s _ refl refl refl w)

  arm-Sound :
      (b : Bool) (s : Qik)
      → IsWhole s
      → Sound Any IsWhole ((if b then set_shutoff env else modify (λ t. t)) s)
  unfolding set_shutoff now
  arm-Sound true s w = (tt, IsWhole-same (advance env s) _ refl refl refl (advance-IsWhole s w))
  arm-Sound false s w = (tt, w)

  send_command-Sound :
      (spins : ℕ) (buf : Bytes) (len : ℕ) (e : Bool) (s : Qik)
      → IsWhole s
      → Sound Any IsWhole (send_command env spins buf len e s)
  unfolding send_command write_to_serial_port
  send_command-Sound spins buf len e s w =
      Sound-bind Any Any IsWhole (await_response env spins) _ s (await_response-Sound spins s w)
        (λ _ t _ u.
          Sound-bind Any Any IsWhole (mark_sent env buf e) _ t (mark_sent-Sound buf e t u)
            (λ _ v _ x.
              Sound-bind Any Any IsWhole
                (if starts_motor buf then set_shutoff env else modify (λ t. t))
                (λ _. modify (write_to_serial_port (take len buf))) v
                (arm-Sound (starts_motor buf) v x)
                (λ _ y _ z. (tt, IsWhole-same y _ refl refl refl z))))

  dequeue_one-Sound :
      (spins : ℕ) (f : Frame) (fs : List Frame) (tmp : Bytes) (s : Qik)
      → Queues s (f ∷ fs)
      → length tmp ≡ 16
      → Sound (λ d. length d ≡ 16) IsWhole (dequeue_one env spins tmp s)
  unfolding dequeue_one
  dequeue_one-Sound spins f fs tmp s q full =
      let p = f.payload in
      let (read_len, h1) =
        pull_byte-Holds (length p) (flag f.expects ∷ (p ++ encode_all fs)) q.holds in
      let (read_flag, h2) = pull_byte-Holds (flag f.expects) (p ++ encode_all fs) h1 in
      let (read_rest, h3) =
        pull_payload-Holds p (encode_all fs) tmp (skip 1 (skip 1 s)) h2 q.short.0 full in
      let tmp' = p ++ drop (length p) tmp in
      let at = skip (length p) (skip 1 (skip 1 s)) in
      let send = send_command env spins tmp' (length p) (not (flag f.expects == 0)) in
      let run : dequeue_one env spins tmp s ≡ (send >> returned tmp') at =
        >>=-returned pull_byte _ read_len
        ∙ >>=-returned pull_byte _ read_flag
        ∙ >>=-returned (pull_payload (length p) 0 tmp) _ read_rest in
      rw run (
        Sound-bind Any (λ d. length d ≡ 16) IsWhole send (λ _. returned tmp') at
          (send_command-Sound spins tmp' (length p) (not (flag f.expects == 0)) at
            (fs, record { holds = h3; short = q.short.1 }))
          (λ _ t _ w. (
            omega (
              arith,
              length-append p (drop (length p) tmp),
              length-drop (length p) tmp,
              q.short.0,
            ),
            w,
          )))

  dequeue_loop-Sound :
      (n spins : ℕ) (tmp : Bytes) (s : Qik)
      → IsWhole s
      → length tmp ≡ 16
      → Sound Any IsWhole (dequeue_loop env n spins tmp s)
  unfolding dequeue_loop
  dequeue_loop-Sound zero spins tmp s w full = w
  dequeue_loop-Sound (suc n) spins tmp s ([], q) full =
      rw ((==_iff s.head s.tail).1 q.holds.spans) (tt, ([], q))
  dequeue_loop-Sound (suc n) spins tmp s (f ∷ fs, q) full =
      Sound-if Any IsWhole (s.head == s.tail) _ _ (tt, (f ∷ fs, q))
        (Sound-bind (λ d. length d ≡ 16) Any IsWhole (dequeue_one env spins tmp)
          (dequeue_loop env n spins) s (dequeue_one-Sound spins f fs tmp s q full)
          (λ d t l w. dequeue_loop-Sound n spins d t w l))

  check_shutoff-Sound : (s : Qik) → IsWhole s → Sound Any IsWhole (check_shutoff env s)
  unfolding check_shutoff set_m0_forward set_m1_forward
  check_shutoff-Sound s w =
      let a = advance-IsWhole s w in
      let cleared = record (advance env s) { motor_shutoff_time = 0 } in
      Sound-if Any IsWhole (s.motor_shutoff_time == 0) _ _ (tt, w)
        (Sound-if Any IsWhole (ltb s.motor_shutoff_time (get_current_time (env s.moment))) _ _
          (Sound-bind Any Any IsWhole (set_m0_forward 9 0) (λ _. set_m1_forward 9 0) cleared
            (queue-Sound (0xaa ∷ 9 ∷ 8 ∷ 0 ∷ []) false cleared (omega arith)
              (IsWhole-same (advance env s) cleared refl refl refl a))
            (λ _ t _ u. queue-Sound (0xaa ∷ 9 ∷ 12 ∷ 0 ∷ []) false t (omega arith) u))
          (tt, a))

  -- A pass of `processQikState` has no undefined behaviour where the queue holds whole commands, and
  -- the queue does so behind it.
  pub process_qik_state-Sound :
      (spins : ℕ) (s : Qik) → IsWhole s → Sound Any IsWhole (process_qik_state env spins s)
  unfolding process_qik_state dequeue_qik_command
  process_qik_state-Sound spins s w =
      Sound-bind Any Any IsWhole (check_shutoff env)
        (λ _. dequeue_loop env 1024 spins (replicate 16 0)) s (check_shutoff-Sound s w)
        (λ _ t _ u. dequeue_loop-Sound 1024 spins (replicate 16 0) t u refl)
