-- ===== src/Qik/Commands/Laws.antt =====
-- Queueing commands: what stays, and what two in a row come to.
use telebra.Base.{
  ◌+◌, ◌≤◌, ◌<◌, ◌≡◌, refl, ap, ◌∙◌, Bool, true, false, List, [], ◌∷◌, ◌++◌, append_assoc, arith,
  Bytes, length, length-append, returned, blocked, ◌>>=◌, ◌>>◌, ignore, >>=-returned,
}
use telebra.Qik.State.{Qik}
use telebra.Qik.Queue.{flag, size_used, put_byte, put_bytes, queue_qik_command}
use telebra.Qik.Queue.Fifo.{
  Frame, encode, encode_all, encode_all-concat, Queues, size_used_lem, enqueued, enqueued-Queues,
  queue_qik_command_fits, queue_qik_command_full,
}

-- Queueing touches the queue, its tail and the mutex only.
pub record Apart (s t : Qik) : Type 0 where
  pub head_same : t.head ≡ s.head
  pub pending_same : t.pending_cmd ≡ s.pending_cmd
  pub sent_same : t.cmd_sent_timestamp ≡ s.cmd_sent_timestamp
  pub shutoff_same : t.motor_shutoff_time ≡ s.motor_shutoff_time
  pub moment_same : t.moment ≡ s.moment
  pub port_same : t.port_open ≡ s.port_open
  pub wire_same : t.wire ≡ s.wire
  pub console_same : t.console ≡ s.console

pub Apart-trans : {s t u : Qik} → Apart s t → Apart t u → Apart s u
Apart-trans a b = ground arith

put_bytes-Apart : (bs : Bytes) (s : Qik) → Apart s (put_bytes bs s)
unfolding put_bytes put_byte
put_bytes-Apart [] s = ground arith
put_bytes-Apart (b ∷ bs) s = Apart-trans (ground arith) (put_bytes-Apart bs (put_byte b s))

pub enqueued-Apart : (buf : Bytes) (e : Bool) (s : Qik) → Apart s (enqueued buf e s)
unfolding put_byte
enqueued-Apart buf e s =
    ground (arith, put_bytes-Apart buf (put_byte (flag e) (put_byte (length buf) s)))

abbrev pub frame : Bytes → Bool → Frame
frame p e = record { payload = p; expects = e }

-- Queue the message for which the caller takes no result.
pub ignore-fits :
    (buf : Bytes) (e : Bool) (s : Qik)
    → s.mutex ≡ false
    → size_used s + length buf + 2 < 1024
    → ignore (queue_qik_command buf e) s ≡ returned tt (enqueued buf e s)
ignore-fits buf e s free fits =
    >>=-returned (queue_qik_command buf e) _ (queue_qik_command_fits s buf e free fits)

pub ignore-full :
    (buf : Bytes) (e : Bool) (s : Qik)
    → s.mutex ≡ false
    → 1024 ≤ size_used s + length buf + 2
    → ignore (queue_qik_command buf e) s ≡ returned tt (record s { mutex = true })
ignore-full buf e s free full =
    >>=-returned (queue_qik_command buf e) _ (queue_qik_command_full s buf e free full)

-- While the mutex is held, queueing waits.
pub ignore-blocked :
    (buf : Bytes) (e : Bool) (s : Qik)
    → s.mutex ≡ true
    → ignore (queue_qik_command buf e) s ≡ blocked s
unfolding queue_qik_command
ignore-blocked buf e s held = rw (held, ◌>>=◌)

-- Two commands in a row that both fit.
pub queue_two :
    (a b : Bytes) (s : Qik) (fs : List Frame)
    → Queues s fs
    → s.mutex ≡ false
    → length a ≤ 16
    → length b ≤ 16
    → length (encode_all fs) + length a + length b + 4 < 1024
    → (t : Qik) × ((ignore (queue_qik_command a false) >> ignore (queue_qik_command b false)) s
        ≡ returned tt t)
      × Queues t (fs ++ frame a false ∷ frame b false ∷ [])
      × (t.mutex ≡ false)
      × Apart s t
queue_two a b s fs q free la lb fits =
    let t = enqueued a false s in
    let qa = enqueued-Queues s fs a false q la (omega arith) in
    let grown = length-append (encode_all fs) (encode (frame a false)) in
    let bytes = ap length (encode_all-concat fs (frame a false)) in
    (
      enqueued b false t,
      >>=-returned (ignore (queue_qik_command a false)) _
            (ignore-fits a false s free (omega (arith, size_used_lem s (encode_all fs) q.holds)))
          ∙ ignore-fits b false t refl (
              omega (
                arith,
                bytes,
                grown,
                size_used_lem t (encode_all (fs ++ frame a false ∷ [])) qa.holds,
              )),
      rw (append_assoc fs (frame a false ∷ []) (frame b false ∷ [])) at (
          enqueued-Queues t (fs ++ frame a false ∷ []) b false qa lb (omega (arith, bytes, grown))),
      refl,
      Apart-trans (enqueued-Apart a false s) (enqueued-Apart b false t),
    )
