-- ===== src/Qik/Queue/Spans.antt =====
-- What stands in the ring of `qikCommandQueue` between two indices.
use telebra.Base.{
  ℕ, ◌+◌, ◌%◌, ◌<◌, ◌≡◌, refl, ap, ◌∙◌, [], ◌∷◌, ◌++◌, append_assoc, append-nil, arith, Bytes,
  length, get_or, set, length-append, length-set, get_or-set_self, get_or-set_ne,
}
use telebra.Qik.State.{Qik}
use telebra.Qik.Queue.{put_byte, put_bytes}

-- Reading round the ring from index `h` gives `bs` and ends at index `t`.
abbrev pub Spans : Bytes → ℕ → Bytes → ℕ → Type 0
Spans q h [] t = h ≡ t
Spans q h (b ∷ bs) t = (get_or q h 0 ≡ b) × Spans q ((h + 1) % 1024) bs t

pub Spans-end :
    (q : Bytes) (h : ℕ) (bs : Bytes) (t : ℕ)
    → h < 1024
    → Spans q h bs t
    → t ≡ (h + length bs) % 1024
Spans-end q h [] t lt p = omega arith
Spans-end q h (b ∷ bs) t lt p = omega (arith, Spans-end q ((h + 1) % 1024) bs t (omega arith) p.1)

-- A write past the span leaves it alone.
Spans-set :
    (q : Bytes) (h : ℕ) (bs : Bytes) (t i v : ℕ)
    → h < 1024
    → length bs < 1024
    → i ≡ (h + length bs) % 1024
    → Spans q h bs t
    → Spans (set q i v) h bs t
Spans-set q h [] t i v lt small e p = p
Spans-set q h (b ∷ bs) t i v lt small e p = (
  get_or-set_ne q i h v 0 (omega arith) ∙ p.0,
  Spans-set q ((h + 1) % 1024) bs t i v (omega arith) (omega arith) (omega arith) p.1,
)

Spans-concat :
    (q : Bytes) (h : ℕ) (bs : Bytes) (t v : ℕ)
    → Spans q h bs t
    → get_or q t 0 ≡ v
    → Spans q h (bs ++ v ∷ []) ((t + 1) % 1024)
Spans-concat q h [] t v p e = (ap (λ i. get_or q i 0) p ∙ e, ap (λ i. (i + 1) % 1024) p)
Spans-concat q h (b ∷ bs) t v p e = (p.0, Spans-concat q ((h + 1) % 1024) bs t v p.1 e)

-- The globals that hold the bytes `bs` in the queue, and have room for them.
pub record Holds (s : Qik) (bs : Bytes) : Type 0 where
  pub size : length s.queue ≡ 1024
  pub head_in : s.head < 1024
  pub tail_in : s.tail < 1024
  pub room : length bs < 1024
  pub spans : Spans s.queue s.head bs s.tail

-- The tail stands as far behind the head as there are bytes.
pub Holds-end : {s : Qik} (bs : Bytes) → Holds s bs → s.tail ≡ (s.head + length bs) % 1024
Holds-end {s} bs h = Spans-end s.queue s.head bs s.tail h.head_in h.spans

pub put_byte-Holds :
    {s : Qik} (b : ℕ) (bs : Bytes)
    → Holds s bs
    → length bs + 1 < 1024
    → Holds (put_byte b s) (bs ++ b ∷ [])
unfolding put_byte
put_byte-Holds {s} b bs h fits = record {
  size = length-set s.queue s.tail b ∙ h.size;
  head_in = h.head_in;
  tail_in = omega arith;
  room = omega (arith, length-append bs (b ∷ []));
  spans =
      Spans-concat (set s.queue s.tail b) s.head bs s.tail b
        (Spans-set s.queue s.head bs s.tail s.tail b h.head_in h.room (Holds-end bs h) h.spans)
        (get_or-set_self s.queue s.tail b 0 (omega (arith, h.size, h.tail_in)));
}

pub put_bytes-Holds :
    {s : Qik} (cs bs : Bytes)
    → Holds s bs
    → length bs + length cs < 1024
    → Holds (put_bytes cs s) (bs ++ cs)
unfolding put_bytes
put_bytes-Holds [] bs h fits = rw append-nil h
put_bytes-Holds {s} (c ∷ cs) bs h fits = rw (append_assoc bs (c ∷ []) cs) at (
    put_bytes-Holds {s = put_byte c s} cs (bs ++ c ∷ []) (put_byte-Holds c bs h (omega arith))
      (omega (arith, length-append bs (c ∷ []))))

-- `Holds` looks at the queue and its two indices only.
pub Holds-same :
    {s : Qik} (t : Qik) (bs : Bytes)
    → t.queue ≡ s.queue
    → t.head ≡ s.head
    → t.tail ≡ s.tail
    → Holds s bs
    → Holds t bs
Holds-same {s} t bs q h e v = record {
  size = ap length q ∙ v.size;
  head_in = omega (arith, v.head_in);
  tail_in = omega (arith, v.tail_in);
  room = v.room;
  spans = rw (q, h, e) v.spans;
}

get_or-append : (pre : Bytes) (b : ℕ) (rest : Bytes) → get_or (pre ++ b ∷ rest) (length pre) 0 ≡ b
get_or-append [] b rest = refl
get_or-append (p ∷ pre) b rest = get_or-append pre b rest

-- Bytes that stand in a row in the ring.
pub Spans-append :
    (pre bs rest : Bytes)
    → length pre + length bs < 1024
    → Spans (pre ++ (bs ++ rest)) (length pre) bs (length pre + length bs)
Spans-append pre [] rest h = omega arith
Spans-append pre (b ∷ bs) rest h =
    let longer = length-append pre (b ∷ []) in
    let at : (length pre + 1) % 1024 ≡ length pre + 1 = omega arith in
    let end : length pre + 1 + length bs ≡ length pre + length (b ∷ bs) = omega arith in
    (
      get_or-append pre b (bs ++ rest),
      rw (at, ← end)
          (rw (longer, append_assoc pre (b ∷ []) (bs ++ rest)) at
            (Spans-append (pre ++ b ∷ []) bs rest (omega (arith, longer)))),
    )
