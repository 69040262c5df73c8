-- ===== src/Qik/Threads/Queueing.antt =====
-- What holds between the steps of the two threads, and that the thread that queues keeps it.
use telebra.Base.{
  ℕ, ◌+◌, ◌<◌, ◌≡◌, refl, sym, ap, ◌∙◌, Bool, List, [], ◌∷◌, ◌++◌, append_assoc, append-nil, arith,
  Bytes, length, length-append,
}
use telebra.Qik.Queue.{flag, size_used, put_byte}
use telebra.Qik.Queue.Spans.{Holds, put_byte-Holds}
use telebra.Qik.Queue.Fifo.{Frame, encode, encode_all, encode_all-concat, size_used_lem}
use telebra.Qik.Serial.Drain.{payloads}
use telebra.Qik.Serial.Watchdog.{payloads-append}
use telebra.Qik.Threads.{
  Producer, outside, putting, Consumer, testing, at_length, at_flag, at_payload, System, fresh,
}

-- No thread is in the middle of queueing.
abbrev pub IsQuiet : System → Type 0
IsQuiet s = s.producer ≡ outside

-- The bytes of the current command that the main thread has still to read, and its payload.
abbrev pub Reading : Consumer → Bytes → List Bytes → Type 0
Reading testing a c = (a ≡ []) × (c ≡ [])
Reading at_length a c = (f : Frame) × (a ≡ encode f) × (c ≡ f.payload ∷ [])
Reading (at_flag n) a c =
    (f : Frame) × (a ≡ flag f.expects ∷ f.payload) × (n ≡ length f.payload) × (c ≡ f.payload ∷ [])
Reading (at_payload n got) a c = (n ≡ length a) × (c ≡ (got ++ a) ∷ [])

-- The bytes of the command that is being queued and are in the ring, and its payload.
abbrev pub Writing : Producer → Bytes → List Bytes → Type 0
Writing outside d g = (d ≡ []) × (g ≡ [])
Writing (putting bs) d g = (f : Frame) × (d ++ bs ≡ encode f) × (g ≡ f.payload ∷ [])

abbrev pub still : Producer → ℕ
still outside = 0
still (putting bs) = length bs

-- The commands of the run, in order: sent, being read, in the ring, being queued.
pub record Inv (ps : List Bytes) (s : System) : Type 0 where
  pub ahead : Bytes
  pub current : List Bytes
  pub frames : List Frame
  pub done : Bytes
  pub begun : List Bytes
  pub holds : Holds s.qik (ahead ++ (encode_all frames ++ done))
  pub reads : Reading s.consumer ahead current
  pub writes : Writing s.producer done begun
  pub room : length (ahead ++ (encode_all frames ++ done)) + still s.producer < 1024
  pub account : ps ≡ s.sent ++ (current ++ (payloads frames ++ begun))

pub fresh-Inv : Inv [] fresh
fresh-Inv = record {
  ahead = [];
  current = [];
  frames = [];
  done = [];
  begun = [];
  holds = record {
    size = refl;
    head_in = omega arith;
    tail_in = omega arith;
    room = omega arith;
    spans = refl;
  };
  reads = (refl, refl);
  writes = (refl, refl);
  room = omega arith;
  account = refl;
}

pub begins-Inv :
    {ps : List Bytes} {s : System} (buf : Bytes) (e : Bool)
    → Inv ps s
    → s.producer ≡ outside
    → size_used s.qik + length buf + 2 < 1024
    → Inv (ps ++ buf ∷ []) (record s { producer = putting (length buf ∷ flag e ∷ buf) })
begins-Inv {ps} {s} buf e i p fits =
    let w : (i.done ≡ []) × (i.begun ≡ []) = rw p at i.writes in
    let used = size_used_lem s.qik (i.ahead ++ (encode_all i.frames ++ i.done)) i.holds in
    record {
      ahead = i.ahead;
      current = i.current;
      frames = i.frames;
      done = i.done;
      begun = buf ∷ [];
      holds = i.holds;
      reads = i.reads;
      writes = (record { payload = buf; expects = e }, rw w.0 refl, refl);
      room = omega (arith, used);
      account =
          ap (λ l. l ++ buf ∷ []) i.account
          ∙ rw w.1 (
              append_assoc s.sent (i.current ++ (payloads i.frames ++ [])) (buf ∷ [])
              ∙ ap (λ l. s.sent ++ l)
                  (append_assoc i.current (payloads i.frames ++ []) (buf ∷ [])
                    ∙ ap (λ l. i.current ++ l) (append_assoc (payloads i.frames) [] (buf ∷ []))));
    }

pub puts-Inv :
    {ps : List Bytes} {s : System} (b : ℕ) (bs : Bytes)
    → Inv ps s
    → s.producer ≡ putting (b ∷ bs)
    → Inv ps (record s { qik = put_byte b s.qik; producer = putting bs })
puts-Inv {ps} {s} b bs i p =
    let (f, whole, g) : (f : Frame) × (i.done ++ b ∷ bs ≡ encode f) × (i.begun ≡ f.payload ∷ []) =
      rw p at i.writes in
    let room : length (i.ahead ++ (encode_all i.frames ++ i.done)) + still (putting (b ∷ bs))
        < 1024 =
      rw p at i.room in
    let ring = i.ahead ++ (encode_all i.frames ++ i.done) in
    let grows : ring ++ b ∷ [] ≡ i.ahead ++ (encode_all i.frames ++ (i.done ++ b ∷ [])) =
      append_assoc i.ahead (encode_all i.frames ++ i.done) (b ∷ [])
      ∙ ap (λ l. i.ahead ++ l) (append_assoc (encode_all i.frames) i.done (b ∷ [])) in
    record {
      ahead = i.ahead;
      current = i.current;
      frames = i.frames;
      done = i.done ++ b ∷ [];
      begun = i.begun;
      holds = rw grows at (put_byte-Holds b ring i.holds (omega (arith, room)));
      reads = i.reads;
      writes = (f, append_assoc i.done (b ∷ []) bs ∙ whole, g);
      room = omega (arith, room, ap length grows, length-append ring (b ∷ []));
      account = i.account;
    }

pub unlocks-Inv :
    {ps : List Bytes} {s : System}
    → Inv ps s
    → s.producer ≡ putting []
    → Inv ps (record s { producer = outside })
unlocks-Inv {ps} {s} i p =
    let (f, whole, g) : (f : Frame) × (i.done ++ [] ≡ encode f) × (i.begun ≡ f.payload ∷ []) =
      rw p at i.writes in
    let ring : encode_all i.frames ++ i.done ≡ encode_all (i.frames ++ f ∷ []) ++ [] =
      ap (λ l. encode_all i.frames ++ l) (sym (append-nil i.done) ∙ whole)
      ∙ sym (encode_all-concat i.frames f)
      ∙ sym (append-nil (encode_all (i.frames ++ f ∷ []))) in
    record {
      ahead = i.ahead;
      current = i.current;
      frames = i.frames ++ f ∷ [];
      done = [];
      begun = [];
      holds = rw ring at i.holds;
      reads = i.reads;
      writes = (refl, refl);
      room = omega (arith, i.room, ap (λ l. length (i.ahead ++ l)) ring);
      account =
          i.account
          ∙ ap (λ l. s.sent ++ (i.current ++ l))
              (ap (λ l. payloads i.frames ++ l) g
                ∙ sym (payloads-append i.frames (f ∷ []))
                ∙ sym (append-nil (payloads (i.frames ++ f ∷ []))));
    }
