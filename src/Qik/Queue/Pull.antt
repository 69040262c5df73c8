-- ===== src/Qik/Queue/Pull.antt =====
-- Reading one frame off the head of the ring.
use telebra.Base.{
  ℕ, suc, ◌+◌, ◌%◌, ◌≤◌, ◌<◌, ◌≡◌, refl, ap, ◌∙◌, [], ◌∷◌, ◌++◌, append_assoc, arith, lt→ltb, Bytes,
  length, get_or, set, set-append, drop, length-append, returned,
}
use telebra.Qik.State.{Qik}
use telebra.Qik.Queue.Spans.{Holds}
use telebra.Qik.Queue.{pull_byte, pull_payload}

-- The globals with the head `n` bytes further on.
abbrev pub skip : ℕ → Qik → Qik
skip n s = record s { head = (s.head + n) % 1024 }

pub pull_byte-Holds :
    {s : Qik} (b : ℕ) (bs : Bytes)
    → Holds s (b ∷ bs)
    → (pull_byte s ≡ returned b (skip 1 s)) × Holds (skip 1 s) bs
unfolding pull_byte
pull_byte-Holds {s} b bs h = (
  ap (λ x. returned x (skip 1 s)) h.spans.0,
  record {
    size = h.size;
    head_in = omega arith;
    tail_in = h.tail_in;
    room = omega (arith, h.room);
    spans = h.spans.1;
  },
)

skip-skip : (s : Qik) (n : ℕ) → skip n (skip 1 s) ≡ skip (suc n) s
skip-skip s n = ap (λ k. record s { head = k }) (omega arith)

skip_zero : (s : Qik) → s.head < 1024 → skip 0 s ≡ s
skip_zero s h = ap (λ k. record s { head = k }) (omega arith)

pull_payload-suc :
    (n i : ℕ) (tmp : Bytes) (s : Qik)
    → i < 16
    → pull_payload (suc n) i tmp s
      ≡ pull_payload n (i + 1) (set tmp i (get_or s.queue s.head 0)) (skip 1 s)
unfolding pull_payload
pull_payload-suc n i tmp s h = rw (lt→ltb _ _ h)

-- The loop copies the bytes at the head over those of `tmpCmd`, from index `length pre` on.
pull_payload-append :
    (bs cs pre post : Bytes) (s : Qik)
    → Holds s (bs ++ cs)
    → length pre + length bs ≤ 16
    → length bs ≤ length post
    → (pull_payload (length bs) (length pre) (pre ++ post) s
        ≡ returned (pre ++ (bs ++ drop (length bs) post)) (skip (length bs) s))
      × Holds (skip (length bs) s) cs
unfolding pull_payload
pull_payload-append [] cs pre post s h small fits = rw (skip_zero s h.head_in) (refl, h)
pull_payload-append (b ∷ bs) cs pre [] s h small fits = absurd (omega arith)
pull_payload-append (b ∷ bs) cs pre (p ∷ post) s h small fits =
    let next = (pull_byte-Holds b (bs ++ cs) h).1 in
    let longer = length-append pre (b ∷ []) in
    let (run, held) =
      pull_payload-append bs cs (pre ++ b ∷ []) post (skip 1 s) next (omega (arith, longer))
        (omega arith) in
    (
      pull_payload-suc (length bs) (length pre) (pre ++ p ∷ post) s (omega arith)
          ∙ rw (h.spans.0, set-append pre post p b)
              (rw
                (
                  longer,
                  append_assoc pre (b ∷ []) post,
                  append_assoc pre (b ∷ []) (bs ++ drop (length bs) post),
                  skip-skip s (length bs),
                )
                at run),
      rw (skip-skip s (length bs)) at held,
    )

-- From the first byte of `tmpCmd` on: the payload, and the old bytes behind it.
pub pull_payload-Holds :
    (bs cs tmp : Bytes) (s : Qik)
    → Holds s (bs ++ cs)
    → length bs ≤ 16
    → length tmp ≡ 16
    → (pull_payload (length bs) 0 tmp s
        ≡ returned (bs ++ drop (length bs) tmp) (skip (length bs) s))
      × Holds (skip (length bs) s) cs
pull_payload-Holds bs cs tmp s h short full =
    pull_payload-append bs cs [] tmp s h (omega arith) (omega (arith, full))
