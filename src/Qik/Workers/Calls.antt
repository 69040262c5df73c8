-- ===== src/Qik/Workers/Calls.antt =====
-- One call of `QueueQikCommand` from the lock to its return, with no other thread in between.
use telebra.Base.{
  ℕ, ◌+◌, ◌<◌, ◌≡◌, ◌≢◌, refl, ap, ◌∙◌, true, false, List, [], ◌∷◌, ◌++◌, Bytes, length,
}
use telebra.Qik.State.{Qik}
use telebra.Qik.Queue.{size_used, put_byte, put_bytes}
use telebra.Qik.Queue.Fifo.{Frame, encode}
use telebra.Qik.Workers.{
  Worker, calling, locked, filling, Shared, update, lock, Runs, locks, accepts, puts, unlocks,
}
use telebra.Qik.Workers.Exclusion.{update_self, update_ne}

module _ (P : Shared → Type 0) (todo : ℕ → List Frame) where
  -- What thread `i` has made of the state `s` when it is at `w`.
  pub record Went (i : ℕ) (w : Worker) (q : Qik) (s t : Shared) : Type 0 where
    pub at : t.workers i ≡ w
    pub others : (j : ℕ) → j ≢ i → t.workers j ≡ s.workers j
    pub ring : t.qik ≡ q
    consumer_same : t.consumer ≡ s.consumer
    sent_same : t.sent ≡ s.sent

  Went-trans :
      {i : ℕ} {w v : Worker} {q r : Qik} {s t u : Shared}
      → Went i w q s t
      → Went i v r t u
      → Went i v r s u
  Went-trans a b = record {
    at = b.at;
    others = λ j d. b.others j d ∙ a.others j d;
    ring = b.ring;
    consumer_same = b.consumer_same ∙ a.consumer_same;
    sent_same = b.sent_same ∙ a.sent_same;
  }

  stepped :
      (s : Shared) (q : Qik) (i : ℕ) (w : Worker)
      → Went i w q s (record s { qik = q; workers = update s.workers i w })
  stepped s q i w = record {
    at = update_self s.workers i w;
    others = λ j d. update_ne s.workers i j w d;
    ring = refl;
    consumer_same = refl;
    sent_same = refl;
  }

  fills :
      {log : List (ℕ × Frame)} (s : Shared) (i : ℕ) (bs : Bytes) (fs : List Frame)
      → Runs P todo log s
      → s.workers i ≡ filling bs fs
      → (t : Shared) × Runs P todo log t × Went i (filling [] fs) (put_bytes bs s.qik) s t
  unfolding put_bytes
  fills s i [] fs r e = (
    s,
    r,
    record { at = e; others = λ j d. refl; ring = refl; consumer_same = refl; sent_same = refl },
  )
  fills s i (b ∷ bs) fs r e =
      let w = filling bs fs in
      let q = put_byte b s.qik in
      let (t, run, went) =
        fills (record s { qik = q; workers = update s.workers i w }) i bs fs (puts i b bs fs r e)
          (update_self s.workers i w) in
      (t, run, Went-trans (stepped s q i w) went)

  -- One command, from the call of `QueueQikCommand` to its return.
  pub queues :
      {log : List (ℕ × Frame)} (s : Shared) (i : ℕ) (f : Frame) (fs : List Frame)
      → Runs P todo log s
      → s.workers i ≡ calling (f ∷ fs)
      → s.qik.mutex ≡ false
      → size_used s.qik + length f.payload + 2 < 1024
      → (t : Shared) × Runs P todo (log ++ (i, f) ∷ []) t
        × Went i (calling fs) (lock false (put_bytes (encode f) (lock true s.qik))) s t
  unfolding size_used
  queues s i f fs r e free room =
      let a = locked f fs in
      let b = filling (encode f) fs in
      let q = lock true s.qik in
      let s1 : Shared = record s { qik = q; workers = update s.workers i a } in
      let s2 : Shared = record s1 { workers = update s1.workers i b } in
      let r2 = accepts i f fs (locks i f fs r e free) (update_self s.workers i a) room in
      let (t, run, went) = fills s2 i (encode f) fs r2 (update_self s1.workers i b) in
      let c = calling fs in
      (
        record t { qik = lock false t.qik; workers = update t.workers i c },
        unlocks i fs run went.at,
        Went-trans (stepped s q i a) (
            Went-trans (stepped s1 q i b) (
              Went-trans went (record {
                at = update_self t.workers i c;
                others = λ j d. update_ne t.workers i j c d;
                ring = ap (lock false) went.ring;
                consumer_same = refl;
                sent_same = refl;
              }))),
      )

abbrev pub put_frame : Frame → Qik → Qik
put_frame f q = lock false (put_bytes (encode f) (lock true q))
