-- ===== src/Qik/Commands/Batch.antt =====
-- Several commands queued one after the other.
use telebra.Base.{
  ◌+◌, ◌≤◌, ◌<◌, ◌≡◌, refl, ap, ◌∙◌, false, List, [], ◌∷◌, ◌++◌, append_assoc, arith, All, length,
  length-append, returned, ◌>>◌, ignore, >>=-returned,
}
use telebra.Qik.State.{Qik, M}
use telebra.Qik.Queue.{queue_qik_command}
use telebra.Qik.Queue.Fifo.{
  Frame, encode, encode_all, encode_all-concat, Queues, enqueued, enqueued-Queues, size_used_lem,
}
use telebra.Qik.Commands.Laws.{Apart, Apart-trans, enqueued-Apart, ignore-fits}

abbrev pub queue_all : List Frame → M (Unit {0})
queue_all [] = returned tt
queue_all (f ∷ []) = ignore (queue_qik_command f.payload f.expects)
queue_all (f ∷ g ∷ fs) = ignore (queue_qik_command f.payload f.expects) >> queue_all (g ∷ fs)

-- Where all fit, all are queued in order.
pub queue_all-Queues :
    (f : Frame) (fs : List Frame) (s : Qik) (gs : List Frame)
    → Queues s gs
    → s.mutex ≡ false
    → All (λ h. length h.payload ≤ 16) (f ∷ fs)
    → length (encode_all gs) + length (encode_all (f ∷ fs)) < 1024
    → (t : Qik) × (queue_all (f ∷ fs) s ≡ returned tt t)
      × Queues t (gs ++ f ∷ fs)
      × (t.mutex ≡ false)
      × Apart s t
queue_all-Queues f [] s gs q free short fits =
    let size = length-append f.payload [] in
    let used = size_used_lem s (encode_all gs) q.holds in
    (
      enqueued f.payload f.expects s,
      ignore-fits f.payload f.expects s free (omega (arith, used, size)),
      enqueued-Queues s gs f.payload f.expects q short.0 (omega (arith, size)),
      refl,
      enqueued-Apart f.payload f.expects s,
    )
queue_all-Queues f (g ∷ fs) s gs q free short fits =
    let size = length-append f.payload (encode_all (g ∷ fs)) in
    let used = size_used_lem s (encode_all gs) q.holds in
    let u = enqueued f.payload f.expects s in
    let grown = ap length (encode_all-concat gs f) ∙ length-append (encode_all gs) (encode f) in
    let more = enqueued-Queues s gs f.payload f.expects q short.0 (omega (arith, size)) in
    let (t, run, queued, free', apart) =
      queue_all-Queues g fs u (gs ++ f ∷ []) more refl short.1 (omega (arith, grown, size)) in
    (
      t,
      >>=-returned (ignore (queue_qik_command f.payload f.expects)) (λ _. queue_all (g ∷ fs))
            (ignore-fits f.payload f.expects s free (omega (arith, used, size)))
          ∙ run,
      rw (append_assoc gs (f ∷ []) (g ∷ fs)) at queued,
      free',
      Apart-trans (enqueued-Apart f.payload f.expects s) apart,
    )
