-- ===== src/Qik/Threads/Safe.antt =====
-- Where the main thread looks at the queue only while no thread is in the middle of a command, no
-- command is lost, doubled or torn.
use telebra.Base.{
  ℕ, suc, ◌≡◌, ◌≢◌, refl, sym, ap, ◌∙◌, List, [], ◌∷◌, ◌++◌, append_assoc, append-nil, arith, Bytes,
  length,
}
use telebra.Qik.State.{Qik}
use telebra.Qik.Queue.{flag}
use telebra.Qik.Queue.Spans.{Holds, Holds-end}
use telebra.Qik.Queue.Pull.{pull_byte-Holds}
use telebra.Qik.Queue.Fifo.{Frame, encode, encode_all}
use telebra.Qik.Serial.Drain.{payloads}
use telebra.Qik.Threads.{
  outside, Consumer, testing, at_length, at_flag, at_payload, System, head_byte, behind_head, Run,
  starts, begins, puts, unlocks, tests, takes_length, takes_flag, takes_byte, sends,
}
use telebra.Qik.Threads.Queueing.{
  IsQuiet, Reading, Inv, fresh-Inv, begins-Inv, puts-Inv, unlocks-Inv,
}

behind_head-Holds :
    {q : Qik} (b : ℕ) (bs : Bytes) → Holds q (b ∷ bs) → (head_byte q ≡ b) × Holds (behind_head q) bs
behind_head-Holds b bs h = (h.spans.0, (pull_byte-Holds b bs h).1)

-- The commands that are whole in the ring, where the head is not the tail.
first_frame :
    {q : Qik} (fs : List Frame)
    → Holds q (encode_all fs)
    → q.head ≢ q.tail
    → (f : Frame) × (gs : List Frame) × (fs ≡ f ∷ gs)
first_frame [] h ne = absurd (ne h.spans)
first_frame (f ∷ gs) h ne = (f, gs, refl)

tests-Inv :
    {ps : List Bytes} {s : System}
    → Inv ps s
    → s.consumer ≡ testing
    → s.qik.head ≢ s.qik.tail
    → IsQuiet s
    → Inv ps (record s { consumer = at_length })
tests-Inv {ps} {s} i c ne quiet =
    let r : (i.ahead ≡ []) × (i.current ≡ []) = rw c at i.reads in
    let w : (i.done ≡ []) × (i.begun ≡ []) = rw quiet at i.writes in
    let ring : i.ahead ++ (encode_all i.frames ++ i.done) ≡ encode_all i.frames =
      ap (λ a. a ++ (encode_all i.frames ++ i.done)) r.0
      ∙ ap (λ d. encode_all i.frames ++ d) w.0
      ∙ append-nil (encode_all i.frames) in
    let (f, gs, e) = first_frame i.frames (rw ring at i.holds) ne in
    let same : i.ahead ++ (encode_all i.frames ++ i.done) ≡ encode f ++ (encode_all gs ++ i.done) =
      ap (λ a. a ++ (encode_all i.frames ++ i.done)) r.0
      ∙ ap (λ fs. encode_all fs ++ i.done) e
      ∙ append_assoc (encode f) (encode_all gs) i.done in
    record {
      ahead = encode f;
      current = f.payload ∷ [];
      frames = gs;
      done = i.done;
      begun = i.begun;
      holds = rw same at i.holds;
      reads = (f, refl, refl);
      writes = i.writes;
      room = omega (arith, i.room, ap length same);
      account =
          i.account
          ∙ ap (λ l. s.sent ++ l)
              (ap (λ c. c ++ (payloads i.frames ++ i.begun)) r.1
                ∙ ap (λ fs. payloads fs ++ i.begun) e);
    }

-- The main thread reads one byte of the command.
reads-Inv :
    {ps : List Bytes} {s : System} (b : ℕ) (bs : Bytes) (next : Consumer) (i : Inv ps s)
    → i.ahead ≡ b ∷ bs
    → Reading next bs i.current
    → Inv ps (record s { qik = behind_head s.qik; consumer = next })
reads-Inv {ps} {s} b bs next i e r =
    let rest = encode_all i.frames ++ i.done in
    let same : i.ahead ++ rest ≡ b ∷ (bs ++ rest) = ap (λ a. a ++ rest) e in
    record {
      ahead = bs;
      current = i.current;
      frames = i.frames;
      done = i.done;
      begun = i.begun;
      holds = (behind_head-Holds b (bs ++ rest) (rw same at i.holds)).1;
      reads = r;
      writes = i.writes;
      room = omega (arith, i.room, ap length same);
      account = i.account;
    }

head_byte-ahead :
    {ps : List Bytes} {s : System} (b : ℕ) (bs : Bytes) (i : Inv ps s)
    → i.ahead ≡ b ∷ bs
    → head_byte s.qik ≡ b
head_byte-ahead {ps} {s} b bs i e =
    let rest = encode_all i.frames ++ i.done in
    let same : i.ahead ++ rest ≡ b ∷ (bs ++ rest) = ap (λ a. a ++ rest) e in
    (behind_head-Holds b (bs ++ rest) (rw same at i.holds)).0

takes_length-Inv :
    {ps : List Bytes} {s : System}
    → Inv ps s
    → s.consumer ≡ at_length
    → Inv ps (record s { qik = behind_head s.qik; consumer = at_flag (head_byte s.qik) })
takes_length-Inv i c =
    let (f, a, p) : Reading at_length i.ahead i.current = rw c at i.reads in
    let b = head_byte-ahead (length f.payload) (flag f.expects ∷ f.payload) i a in
    reads-Inv (length f.payload) (flag f.expects ∷ f.payload) _ i a (f, refl, b, p)

takes_flag-Inv :
    {ps : List Bytes} {s : System} (len : ℕ)
    → Inv ps s
    → s.consumer ≡ at_flag len
    → Inv ps (record s { qik = behind_head s.qik; consumer = at_payload len [] })
takes_flag-Inv len i c =
    let (f, a, n, p) : Reading (at_flag len) i.ahead i.current = rw c at i.reads in
    reads-Inv (flag f.expects) f.payload _ i a (n, p)

some_left : (n : ℕ) (a : Bytes) → suc n ≡ length a → (b : ℕ) × (bs : Bytes) × (a ≡ b ∷ bs)
some_left n [] e = absurd (omega (arith, e))
some_left n (b ∷ bs) e = (b, bs, refl)

takes_byte-Inv :
    {ps : List Bytes} {s : System} (n : ℕ) (got : Bytes)
    → Inv ps s
    → s.consumer ≡ at_payload (suc n) got
    → Inv ps (record s {
      qik = behind_head s.qik;
      consumer = at_payload n (got ++ head_byte s.qik ∷ []);
    })
takes_byte-Inv {ps} {s} n got i c =
    let (e, p) : Reading (at_payload (suc n) got) i.ahead i.current = rw c at i.reads in
    let (b, bs, a) = some_left n i.ahead e in
    let at_head = head_byte-ahead b bs i a in
    reads-Inv b bs _ i a (
      omega (arith, e, ap length a),
      p
          ∙ ap (λ x. (got ++ x) ∷ []) a
          ∙ ap (λ x. x ∷ []) (sym (append_assoc got (b ∷ []) bs))
          ∙ ap (λ x. ((got ++ x ∷ []) ++ bs) ∷ []) (sym at_head),
    )

none_left : (a : Bytes) → 0 ≡ length a → a ≡ []
none_left [] e = refl
none_left (b ∷ bs) e = absurd (omega (arith, e))

sends-Inv :
    {ps : List Bytes} {s : System} (got : Bytes)
    → Inv ps s
    → s.consumer ≡ at_payload 0 got
    → Inv ps (record s { consumer = testing; sent = s.sent ++ got ∷ [] })
sends-Inv {ps} {s} got i c =
    let (e, p) : Reading (at_payload 0 got) i.ahead i.current = rw c at i.reads in
    let a = none_left i.ahead e in
    record {
      ahead = i.ahead;
      current = [];
      frames = i.frames;
      done = i.done;
      begun = i.begun;
      holds = i.holds;
      reads = (a, refl);
      writes = i.writes;
      room = i.room;
      account =
          i.account
          ∙ ap (λ x. s.sent ++ (x ++ (payloads i.frames ++ i.begun)))
              (p ∙ ap (λ x. (got ++ x) ∷ []) a ∙ ap (λ x. x ∷ []) (append-nil got))
          ∙ sym (append_assoc s.sent (got ∷ []) (payloads i.frames ++ i.begun));
    }

Run-Inv : {ps : List Bytes} {s : System} → Run IsQuiet ps s → Inv ps s
Run-Inv starts = fresh-Inv
Run-Inv (begins buf e r p room) = begins-Inv buf e (Run-Inv r) p room
Run-Inv (puts b bs r p) = puts-Inv b bs (Run-Inv r) p
Run-Inv (unlocks r p) = unlocks-Inv (Run-Inv r) p
Run-Inv (tests r c ne quiet) = tests-Inv (Run-Inv r) c ne quiet
Run-Inv (takes_length r c) = takes_length-Inv (Run-Inv r) c
Run-Inv (takes_flag len r c) = takes_flag-Inv len (Run-Inv r) c
Run-Inv (takes_byte n got r c) = takes_byte-Inv n got (Run-Inv r) c
Run-Inv (sends got r c) = sends-Inv got (Run-Inv r) c

no_frame : {q : Qik} (fs : List Frame) → Holds q (encode_all fs) → q.head ≡ q.tail → fs ≡ []
no_frame [] h e = refl
no_frame (f ∷ fs) h e =
    absurd (omega (arith, e, Holds-end (encode_all (f ∷ fs)) h, h.head_in, h.room))

all_sent :
    {ps : List Bytes} {s : System}
    → Inv ps s
    → s.producer ≡ outside
    → s.consumer ≡ testing
    → s.qik.head ≡ s.qik.tail
    → ps ≡ s.sent
all_sent {ps} {s} i p c empty =
    let r : (i.ahead ≡ []) × (i.current ≡ []) = rw c at i.reads in
    let w : (i.done ≡ []) × (i.begun ≡ []) = rw p at i.writes in
    let ring : i.ahead ++ (encode_all i.frames ++ i.done) ≡ encode_all i.frames =
      ap (λ a. a ++ (encode_all i.frames ++ i.done)) r.0
      ∙ ap (λ d. encode_all i.frames ++ d) w.0
      ∙ append-nil (encode_all i.frames) in
    let none = no_frame i.frames (rw ring at i.holds) empty in
    i.account
    ∙ ap (λ l. s.sent ++ (l ++ (payloads i.frames ++ i.begun))) r.1
    ∙ ap (λ fs. s.sent ++ (payloads fs ++ i.begun)) none
    ∙ ap (λ l. s.sent ++ l) w.1
    ∙ append-nil s.sent

-- Where the main thread goes on from its test only while no thread is in the middle of queueing,
-- and in any order of the steps else: what it has sent is always a first part of the payloads
-- queued, each once, whole and in order; and it is all of them when no thread queues and the main
-- thread is at its test and finds the queue empty.
pub Run-sent :
    {ps : List Bytes} {s : System}
    → Run IsQuiet ps s
    → (later : List Bytes) × (ps ≡ s.sent ++ later)
      × (s.producer ≡ outside → s.consumer ≡ testing → s.qik.head ≡ s.qik.tail → ps ≡ s.sent)
Run-sent r = let i = Run-Inv r in (_, i.account, all_sent i)
