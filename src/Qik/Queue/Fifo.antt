-- ===== src/Qik/Queue/Fifo.antt =====
-- The ring against a bounded first-in first-out queue of commands.
use telebra.Base.{
  ℕ, ◌+◌, ◌≤◌, ◌<◌, ◌≡◌, refl, sym, ap, ◌∙◌, Bool, true, false, List, [], ◌∷◌, ◌++◌, append_assoc,
  append-nil, ltb, if◌then◌else◌, arith, Bytes, length, All, ◌==◌, lt→ltb, le→not_ltb, dec_lt,
  length-append, All-append, returned,
}
use telebra.Qik.State.{Qik}
use telebra.Qik.Queue.Spans.{Holds, Holds-end, put_byte-Holds, put_bytes-Holds, Holds-same}
use telebra.Qik.Queue.{flag, size_used, put_byte, put_bytes, queue_qik_command}

-- A queued command: its bytes, and whether the controller answers it.
pub record Frame : Type 0 where
  pub payload : Bytes
  pub expects : Bool

abbrev pub encode : Frame → Bytes
encode f = length f.payload ∷ flag f.expects ∷ f.payload

abbrev pub encode_all : List Frame → Bytes
encode_all [] = []
encode_all (f ∷ fs) = encode f ++ encode_all fs

-- The bounded queue that the ring stands for: a command that does not fit is refused.
abbrev pub push : List Frame → Frame → ℕ × List Frame
push fs f =
    if ltb (length (encode_all fs) + length f.payload + 2) 1024 then (1, fs ++ f ∷ []) else (0, fs)

-- The globals that hold these commands; each fits `tmpCmd`.
pub record Queues (s : Qik) (fs : List Frame) : Type 0 where
  pub holds : Holds s (encode_all fs)
  pub short : All (λ f. length f.payload ≤ 16) fs

pub encode_all-concat :
    (fs : List Frame) (f : Frame) → encode_all (fs ++ f ∷ []) ≡ encode_all fs ++ encode f
encode_all-concat [] f = append-nil (encode f)
encode_all-concat (g ∷ fs) f =
    ap (λ t. encode g ++ t) (encode_all-concat fs f)
    ∙ sym (append_assoc (encode g) (encode_all fs) (encode f))

pub size_used_lem : (s : Qik) (bs : Bytes) → Holds s bs → size_used s ≡ length bs
unfolding size_used
size_used_lem s bs h = ground (arith, Holds-end bs h, h.head_in, h.room)

-- The globals after an enqueue that fits.
abbrev pub enqueued : Bytes → Bool → Qik → Qik
enqueued buf e s = record (put_bytes buf (put_byte (flag e) (put_byte (length buf) s))) {
  mutex = false;
}

pub enqueued-Queues :
    (s : Qik) (fs : List Frame) (buf : Bytes) (e : Bool)
    → Queues s fs
    → length buf ≤ 16
    → length (encode_all fs) + length buf + 2 < 1024
    → Queues (enqueued buf e s) (fs ++ record { payload = buf; expects = e } ∷ [])
enqueued-Queues s fs buf e q short fits = record {
  holds = rw (encode_all-concat fs (record { payload = buf; expects = e })) (
      Holds-same (enqueued buf e s) (encode_all fs ++ length buf ∷ flag e ∷ buf) refl refl refl (
        rw
          (
            append_assoc start (flag e ∷ []) buf,
            append_assoc (encode_all fs) (length buf ∷ []) (flag e ∷ buf),
          )
          at
          (put_bytes-Holds buf (start ++ flag e ∷ [])
            (put_byte-Holds (flag e) start
              (put_byte-Holds (length buf) (encode_all fs) q.holds (omega arith))
              (omega (arith, grown)))
            (omega (arith, grown, length-append start (flag e ∷ []))))));
  short = All-append _ fs (record { payload = buf; expects = e } ∷ []) q.short (short, tt);
}
  where
    start : Bytes
    start = encode_all fs ++ length buf ∷ []

    grown : length start ≡ length (encode_all fs) + 1
    grown = omega (arith, length-append (encode_all fs) (length buf ∷ []))

pub queue_qik_command_fits :
    (s : Qik) (buf : Bytes) (e : Bool)
    → s.mutex ≡ false
    → size_used s + length buf + 2 < 1024
    → queue_qik_command buf e s ≡ returned 1 (enqueued buf e s)
unfolding queue_qik_command
queue_qik_command_fits s buf e free fits = rw (lt→ltb _ _ fits, free)

pub queue_qik_command_full :
    (s : Qik) (buf : Bytes) (e : Bool)
    → s.mutex ≡ false
    → 1024 ≤ size_used s + length buf + 2
    → queue_qik_command buf e s ≡ returned 0 (record s { mutex = true })
unfolding queue_qik_command
queue_qik_command_full s buf e free full = rw (le→not_ltb _ _ full, free)

-- `QueueQikCommand` on a free mutex returns what the bounded queue says, appends the command
-- exactly when it fits, and has then released the mutex exactly when it returns 1.
pub queue_qik_command_refines :
    (s : Qik) (fs : List Frame) (buf : Bytes) (e : Bool)
    → Queues s fs
    → s.mutex ≡ false
    → length buf ≤ 16
    → let (r, gs) = push fs (record { payload = buf; expects = e }) in
      (t : Qik) × (queue_qik_command buf e s ≡ returned r t)
      × Queues t gs
      × (t.mutex ≡ (if r == 1 then false else true))
queue_qik_command_refines s fs buf e q free short =
    let used = size_used_lem s (encode_all fs) q.holds in
    elim (dec_lt (length (encode_all fs) + length buf + 2) 1024) [
      | yes fits ↦ rw (lt→ltb _ _ fits) (
        enqueued buf e s,
        queue_qik_command_fits s buf e free (omega arith),
        enqueued-Queues s fs buf e q short fits,
        refl,
      )
      | no full ↦ rw (le→not_ltb (length (encode_all fs) + length buf + 2) 1024 (omega arith)) (
        record s { mutex = true },
        queue_qik_command_full s buf e free (omega arith),
        record { holds = Holds-same _ _ refl refl refl q.holds; short = q.short },
        refl,
      )
    ]
