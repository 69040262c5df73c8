-- ===== src/Qik/Workers/Mixed.antt =====
-- Two orders at once: each is two commands, and each command takes the mutex by itself.
use telebra.Base.{
  ℕ, zero, suc, ◌+◌, ◌<◌, ◌≡◌, refl, ap, ◌∙◌, Bool, true, false, some, List, [], ◌∷◌, ◌++◌, arith,
  Bytes, length,
}
use telebra.Qik.State.{Qik, initial}
use telebra.Qik.Queue.{size_used, put_byte, put_bytes}
use telebra.Qik.Queue.Fifo.{Frame}
use telebra.Qik.Commands.Laws.{frame}
use telebra.Qik.Commands.Protocol.{decode}
use telebra.Qik.Motor.Drive.{
  Direction, up, down, left, right, messages, messages-decode, action_speed, turns_forward,
}
use telebra.Qik.Serial.Drain.{payloads}
use telebra.Qik.Workers.{Worker, calling, Shared, begun, Runs, starts}
use telebra.Qik.Workers.Exclusion.{frames_of}
use telebra.Qik.Workers.Calls.{queues, put_frame}

-- Two threads, each with two commands of four bytes: the second queues both of its own between those
-- of the first.
abbrev pub two : List Frame → List Frame → ℕ → List Frame
two fs gs zero = fs
two fs gs (suc zero) = gs
two fs gs (suc (suc i)) = []

-- The commands of an order, as `processMotorControl` queues them.
abbrev pub both : Bytes × Bytes → List Frame
both (a, b) = frame a false ∷ frame b false ∷ []

abbrev pub order_frames : Direction → Bool → List Frame
order_frames d go = both (messages d (action_speed go))

abbrev command : ℕ → ℕ → Frame
command code value = frame (0xaa ∷ 9 ∷ code ∷ value ∷ []) false

four_bytes :
    (d : Direction) (go : Bool)
    → (b : ℕ) × (c : ℕ) × (v : ℕ) × (messages d (action_speed go)
        ≡ (0xaa ∷ 9 ∷ b ∷ v ∷ [], 0xaa ∷ 9 ∷ c ∷ v ∷ []))
four_bytes up true = (9, 13, 127, refl)
four_bytes up false = (8, 12, 0, refl)
four_bytes down true = (11, 15, 127, refl)
four_bytes down false = (10, 14, 0, refl)
four_bytes left true = (9, 15, 127, refl)
four_bytes left false = (8, 14, 0, refl)
four_bytes right true = (11, 13, 127, refl)
four_bytes right false = (10, 12, 0, refl)

module _ (P : Shared → Type 0) (todo : ℕ → List Frame) where
  -- Where the two threads are, with nothing to do for the others.
  record At (q : Qik) (w v : Worker) (s : Shared) : Type 0 where
    ring : s.qik ≡ q
    first : s.workers 0 ≡ w
    second : s.workers 1 ≡ v
    others : (j : ℕ) → 1 < j → s.workers j ≡ calling []

  first_queues :
      {log : List (ℕ × Frame)} (q : Qik) (f : Frame) (fs : List Frame) (v : Worker) (s : Shared)
      → Runs P todo log s
      → At q (calling (f ∷ fs)) v s
      → q.mutex ≡ false
      → size_used q + length f.payload + 2 < 1024
      → (t : Shared) × Runs P todo (log ++ (0, f) ∷ []) t × At (put_frame f q) (calling fs) v t
  first_queues q f fs v s r a free room =
      let (t, run, w) = queues P todo s 0 f fs r a.first (rw a.ring free) (rw a.ring room) in
      (
        t,
        run,
        record {
          ring = w.ring ∙ ap (put_frame f) a.ring;
          first = w.at;
          second = w.others 1 (omega arith) ∙ a.second;
          others = λ j lt. w.others j (omega (arith, lt)) ∙ a.others j lt;
        },
      )

  second_queues :
      {log : List (ℕ × Frame)} (q : Qik) (f : Frame) (fs : List Frame) (v : Worker) (s : Shared)
      → Runs P todo log s
      → At q v (calling (f ∷ fs)) s
      → q.mutex ≡ false
      → size_used q + length f.payload + 2 < 1024
      → (t : Shared) × Runs P todo (log ++ (1, f) ∷ []) t × At (put_frame f q) v (calling fs) t
  second_queues q f fs v s r a free room =
      let (t, run, w) = queues P todo s 1 f fs r a.second (rw a.ring free) (rw a.ring room) in
      (
        t,
        run,
        record {
          ring = w.ring ∙ ap (put_frame f) a.ring;
          first = w.others 0 (omega arith) ∙ a.first;
          second = w.at;
          others = λ j lt. w.others j (omega (arith, lt)) ∙ a.others j lt;
        },
      )

  all_done :
      {q : Qik} (s : Shared) → At q (calling []) (calling []) s → (i : ℕ) → s.workers i ≡ calling []
  all_done s a zero = a.first
  all_done s a (suc zero) = a.second
  all_done s a (suc (suc i)) = a.others (suc (suc i)) (omega arith)

nothing_else : (fs gs : List Frame) (j : ℕ) → 1 < j → calling (two fs gs j) ≡ calling []
nothing_else fs gs zero lt = absurd (omega (arith, lt))
nothing_else fs gs (suc zero) lt = absurd (omega (arith, lt))
nothing_else fs gs (suc (suc j)) lt = refl

begun-At :
    (P : Shared → Type 0) (fs gs : List Frame)
    → At P (two fs gs) initial (calling fs) (calling gs) (begun (two fs gs))
begun-At P fs gs = record { ring = refl; first = refl; second = refl; others = nothing_else fs gs }

-- The second thread queues both of its commands between those of the first.
between :
    (P : Shared → Type 0) (a b c d v w : ℕ)
    → let todo = two (command a v ∷ command b v ∷ []) (command c w ∷ command d w ∷ []) in
      (s : Shared) × Runs P todo
        ((0, command a v) ∷ (1, command c w) ∷ (1, command d w) ∷ (0, command b v) ∷ [])
        s
      × ((i : ℕ) → s.workers i ≡ calling [])
      × (s.qik.mutex ≡ false)
unfolding size_used put_byte put_bytes
between P a b c d v w =
    let f = command a v in
    let f' = command b v in
    let g = command c w in
    let g' = command d w in
    let todo = two (f ∷ f' ∷ []) (g ∷ g' ∷ []) in
    let (s1, r1, a1) =
      first_queues P todo initial f (f' ∷ []) (calling (g ∷ g' ∷ [])) (begun todo) starts
        (begun-At P (f ∷ f' ∷ []) (g ∷ g' ∷ [])) refl (omega arith) in
    let (s2, r2, a2) =
      second_queues P todo (put_frame f initial) g (g' ∷ []) (calling (f' ∷ [])) s1 r1 a1 refl
        (omega arith) in
    let (s3, r3, a3) =
      second_queues P todo (put_frame g (put_frame f initial)) g' [] (calling (f' ∷ [])) s2 r2 a2
        refl (omega arith) in
    let (s4, r4, a4) =
      first_queues P todo (put_frame g' (put_frame g (put_frame f initial))) f' [] (calling []) s3
        r3 a3 refl (omega arith) in
    (s4, r4, all_done P todo s4 a4, ap (λ q. q.mutex) a4.ring)

-- The state behind a run in which the orders of two threads are mixed.
pub record Mixed (P : Shared → Type 0) (fs gs : List Frame) (ps : List Bytes) : Type 0 where
  pub log : List (ℕ × Frame)
  pub state : Shared
  pub run : Runs P (two fs gs) log state
  pub done : (i : ℕ) → state.workers i ≡ calling []
  pub free : state.qik.mutex ≡ false
  pub order : payloads (frames_of log) ≡ ps

Mixed-both :
    (P : Shared → Type 0) (m n : Bytes × Bytes) (a b c d v w : ℕ)
    → m ≡ (0xaa ∷ 9 ∷ a ∷ v ∷ [], 0xaa ∷ 9 ∷ b ∷ v ∷ [])
    → n ≡ (0xaa ∷ 9 ∷ c ∷ w ∷ [], 0xaa ∷ 9 ∷ d ∷ w ∷ [])
    → Mixed P (both m) (both n) (m.0 ∷ n.0 ∷ n.1 ∷ m.1 ∷ [])
Mixed-both P m n a b c d v w e f =
    let (s, run, all, free) = between P a b c d v w in
    rw (e, f) (record { log = _; state = s; run = run; done = all; free = free; order = refl })

-- Two threads handle one order each. Whatever the orders are, and whatever the main thread needs to
-- know to go on, there is a run in which both threads return, the mutex is free, and the commands
-- stand in the queue so that the last one for motor 0 is of the second order and the last one for
-- motor 1 of the first.
pub Runs-Mixed :
    (P : Shared → Type 0) (d e : Direction) (go again : Bool)
    → (a : Bytes) × (b : Bytes) × (a' : Bytes) × (b' : Bytes) × Mixed P
        (order_frames d go)
        (order_frames e again)
        (a ∷ a' ∷ b' ∷ b ∷ [])
      × (decode 9 a
          ≡ some (record { motor = 0; forward = (turns_forward d).0; speed = action_speed go }))
      × (decode 9 b
          ≡ some (record { motor = 1; forward = (turns_forward d).1; speed = action_speed go }))
      × (decode 9 a'
          ≡ some (record { motor = 0; forward = (turns_forward e).0; speed = action_speed again }))
      × (decode 9 b'
          ≡ some (record { motor = 1; forward = (turns_forward e).1; speed = action_speed again }))
Runs-Mixed P d e go again =
    let (da, db, la, lb) = messages-decode d go in
    let (ea, eb, ka, kb) = messages-decode e again in
    let (x, y, v, m) = four_bytes d go in
    let (x', y', w, n) = four_bytes e again in
    (
      (messages d (action_speed go)).0,
      (messages d (action_speed go)).1,
      (messages e (action_speed again)).0,
      (messages e (action_speed again)).1,
      Mixed-both P (messages d (action_speed go)) (messages e (action_speed again)) x y x' y' v w m
          n,
      da,
      db,
      ea,
      eb,
    )
