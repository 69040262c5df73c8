-- ===== src/Qik/Workers/Order.antt =====
-- The order in which the commands of several threads are queued and sent.
use mathlib.Core.Path.{subst}
use telebra.Base.{
  ℕ, ◌≡◌, ◌⊎◌, inl, inr, refl, sym, ap, ◌∙◌, Bool, true, false, List, [], ◌∷◌, ◌++◌, append_assoc,
  append-nil, Bytes, ◌==◌, if◌then◌else◌, ==_refl, ne→not_==, Bool-cases, ℕ_discrete,
}
use telebra.Qik.Queue.{put_byte}
use telebra.Qik.Queue.Fifo.{Frame, encode}
use telebra.Qik.Serial.Drain.{payloads}
use telebra.Qik.Threads.{Producer, outside}
use telebra.Qik.Threads.Queueing.{IsQuiet}
use telebra.Qik.Threads.Safe.{Run-sent}
use telebra.Qik.Workers.{
  Worker, calling, locked, filling, Shared, update, Runs, starts, locks, accepts, refuses, puts,
  unlocks, tests, takes_length, takes_flag, takes_byte, sends,
}
use telebra.Qik.Workers.Exclusion.{
  IsCalling, Inside, Holding, view, frames_of, alone, update_self, update_ne, update-IsCalling,
  Runs-Run,
}

-- The commands of one thread among those of all, in order.
abbrev pub of_thread : ℕ → List (ℕ × Frame) → List Frame
of_thread i [] = []
of_thread i ((j, f) ∷ log) = if j == i then f ∷ of_thread i log else of_thread i log

-- The commands of a thread that are not in the queue yet.
abbrev pub left : Worker → List Frame
left (calling fs) = fs
left (locked f fs) = f ∷ fs
left (filling bs fs) = fs

abbrev pub IsFilling : Worker → Type 0
IsFilling (filling bs fs) = Unit
IsFilling _ = ⊥

-- No thread is putting bytes into the ring.
abbrev pub IsSettled : Shared → Type 0
IsSettled s = (i : ℕ) → ¬ IsFilling (s.workers i)

settled-outside : (w : Worker) (p : Producer) → Inside w p → ¬ IsFilling w → p ≡ outside
settled-outside (calling fs) p h n = absurd h
settled-outside (locked f fs) p h n = h
settled-outside (filling bs fs) p h n = absurd (n tt)

IsSettled-IsQuiet : (s : Shared) (p : Producer) → Holding s p → IsSettled s → IsQuiet (view s p)
IsSettled-IsQuiet s p (inl (all, out)) h = out
IsSettled-IsQuiet s p (inr (i, held, inside, others)) h =
    settled-outside (s.workers i) p inside (h i)

of_thread-append :
    (i j : ℕ) (f : Frame) (log : List (ℕ × Frame))
    → of_thread i (log ++ (j, f) ∷ []) ≡ of_thread i log ++ (if j == i then f ∷ [] else [])
of_thread-append i j f [] = refl
of_thread-append i j f ((k, g) ∷ log) = elim (Bool-cases (k == i)) [
  | inl same ↦ rw same (ap (λ l. g ∷ l) (of_thread-append i j f log))
  | inr other ↦ rw other (of_thread-append i j f log)
]

-- Nothing was lost so far.
abbrev Kept : (ℕ → List Frame) → List (ℕ × Frame) → (ℕ → Worker) → Type 0
Kept todo log ws = (i : ℕ) → todo i ≡ of_thread i log ++ left (ws i)

-- A thread's step that leaves the same commands to be queued.
Kept-update :
    (todo : ℕ → List Frame) (log : List (ℕ × Frame)) (ws : ℕ → Worker) (i : ℕ) (w : Worker)
    → left (ws i) ≡ left w
    → Kept todo log ws
    → Kept todo log (update ws i w)
Kept-update todo log ws i w e k j = elim (ℕ_discrete j i) [
  | yes same ↦
      k j
      ∙ ap (λ l. of_thread j log ++ l) (ap (λ m. left (ws m)) same ∙ e ∙ sym (ap left (at j same)))
  | no differ ↦ k j ∙ ap (λ l. of_thread j log ++ left l) (sym (update_ne ws i j w differ))
]
  where
    at : (j : ℕ) → j ≡ i → update ws i w j ≡ w
    at j same = ap (update ws i w) same ∙ update_self ws i w

-- Thread `i` gets its command into the log.
Kept-accepts :
    (todo : ℕ → List Frame) (log : List (ℕ × Frame)) (ws : ℕ → Worker) (i : ℕ) (f : Frame)
    (w : Worker)
    → left (ws i) ≡ f ∷ left w
    → Kept todo log ws
    → Kept todo (log ++ (i, f) ∷ []) (update ws i w)
Kept-accepts todo log ws i f w e k j = elim (ℕ_discrete j i) [
  | yes same ↦
      rw (of_thread-append j i f log, ap (λ m. i == m) same ∙ ==_refl i)
        (k j
          ∙ ap (λ l. of_thread j log ++ l) (ap (λ m. left (ws m)) same ∙ e)
          ∙ sym (append_assoc (of_thread j log) (f ∷ []) (left w)))
  | no differ ↦
      rw (of_thread-append j i f log, ne→not_== i j (λ q. differ (sym q)))
        (k j ∙ ap (λ l. l ++ left (ws j)) (sym (append-nil (of_thread j log))))
]

-- Thread `i` gets its command refused.
Kept-refuses :
    (todo : ℕ → List Frame) (log : List (ℕ × Frame)) (ws : ℕ → Worker) (i : ℕ) (f : Frame)
    (fs : List Frame)
    → left (ws i) ≡ f ∷ fs
    → Kept todo log ws
    → (j : ℕ)
    → (lost : List Frame) × (todo j
        ≡ of_thread j log ++ (lost ++ left (update ws i (calling fs) j)))
Kept-refuses todo log ws i f fs e k j = elim (ℕ_discrete j i) [
  | yes same ↦ (
    f ∷ [],
    rw (ap (λ m. i == m) same ∙ ==_refl i)
        (k j ∙ ap (λ l. of_thread j log ++ l) (ap (λ m. left (ws m)) same ∙ e)),
  )
  | no differ ↦ ([], rw (ne→not_== i j (λ q. differ (sym q))) (k j))
]

-- A command was refused: the mutex stays locked, and no thread is inside.
record Stuck (todo : ℕ → List Frame) (log : List (ℕ × Frame)) (s : Shared) : Type 0 where
  held : s.qik.mutex ≡ true
  all : (j : ℕ) → IsCalling (s.workers j)
  lost : (j : ℕ) → (fs : List Frame) × (todo j ≡ of_thread j log ++ (fs ++ left (s.workers j)))

Stuck-Inside :
    {todo : ℕ → List Frame} {log : List (ℕ × Frame)} {s : Shared} (i : ℕ) (w : Worker)
    → Stuck todo log s
    → s.workers i ≡ w
    → ¬ IsCalling w
    → ⊥
Stuck-Inside i w k e no_call = no_call (subst IsCalling e (k.all i))

Stuck-refuses :
    {P : Shared → Type 0} {todo : ℕ → List Frame} {log : List (ℕ × Frame)} {s : Shared} (i : ℕ)
    (f : Frame) (fs : List Frame)
    → Runs P todo log s
    → s.workers i ≡ locked f fs
    → Kept todo log s.workers
    → Stuck todo log (record s { workers = update s.workers i (calling fs) })
Stuck-refuses {P} {todo} {log} {s} i f fs r e k =
    let (p, run, hold) = Runs-Run P (λ t. Unit {0}) todo (λ t q h quiet. tt) r in
    let (held, out, others) = alone s p i (locked f fs) hold e (λ h. h) in
    record {
      held = held;
      all = update-IsCalling s.workers i fs others;
      lost = λ j. Kept-refuses todo log s.workers i f fs (ap left e) k j;
    }

Runs-Kept :
    {P : Shared → Type 0} {todo : ℕ → List Frame} {log : List (ℕ × Frame)} {s : Shared}
    → Runs P todo log s
    → Kept todo log s.workers ⊎ Stuck todo log s
unfolding put_byte
Runs-Kept starts = inl (λ i. refl)
Runs-Kept (locks {log} {s} i f fs r e free) = elim (Runs-Kept r) [
  | inl k ↦ inl (Kept-update _ log s.workers i (locked f fs) (ap left e) k)
  | inr k ↦ absurd (false_held k.held free)
]
  where
    false_held : {b : Bool} → b ≡ true → b ≡ false → ⊥
    false_held p q = cc
Runs-Kept (accepts {log} {s} i f fs r e room) = elim (Runs-Kept r) [
  | inl k ↦ inl (Kept-accepts _ log s.workers i f (filling (encode f) fs) (ap left e) k)
  | inr k ↦ absurd (Stuck-Inside i (locked f fs) k e (λ h. h))
]
Runs-Kept (refuses i f fs r e full) = elim (Runs-Kept r) [
  | inl k ↦ inr (Stuck-refuses i f fs r e k)
  | inr k ↦ absurd (Stuck-Inside i (locked f fs) k e (λ h. h))
]
Runs-Kept (puts {log} {s} i b bs fs r e) = elim (Runs-Kept r) [
  | inl k ↦ inl (Kept-update _ log s.workers i (filling bs fs) (ap left e) k)
  | inr k ↦ absurd (Stuck-Inside i (filling (b ∷ bs) fs) k e (λ h. h))
]
Runs-Kept (unlocks {log} {s} i fs r e) = elim (Runs-Kept r) [
  | inl k ↦ inl (Kept-update _ log s.workers i (calling fs) (ap left e) k)
  | inr k ↦ absurd (Stuck-Inside i (filling [] fs) k e (λ h. h))
]
Runs-Kept (tests r c ne quiet) = elim (Runs-Kept r) [
  | inl k ↦ inl k
  | inr k ↦ inr (record { held = k.held; all = k.all; lost = k.lost })
]
Runs-Kept (takes_length r c) = elim (Runs-Kept r) [
  | inl k ↦ inl k
  | inr k ↦ inr (record { held = k.held; all = k.all; lost = k.lost })
]
Runs-Kept (takes_flag len r c) = elim (Runs-Kept r) [
  | inl k ↦ inl k
  | inr k ↦ inr (record { held = k.held; all = k.all; lost = k.lost })
]
Runs-Kept (takes_byte n got r c) = elim (Runs-Kept r) [
  | inl k ↦ inl k
  | inr k ↦ inr (record { held = k.held; all = k.all; lost = k.lost })
]
Runs-Kept (sends got r c) = elim (Runs-Kept r) [
  | inl k ↦ inl k
  | inr k ↦ inr (record { held = k.held; all = k.all; lost = k.lost })
]

lost_of :
    (todo : ℕ → List Frame) (log : List (ℕ × Frame)) (s : Shared) (i : ℕ)
    → Kept todo log s.workers ⊎ Stuck todo log s
    → (lost : List Frame) × (todo i ≡ of_thread i log ++ (lost ++ left (s.workers i)))
      × ((lost ≡ []) ⊎ ((s.qik.mutex ≡ true) × ((j : ℕ) → IsCalling (s.workers j))))
lost_of todo log s i (inl k) = ([], k i, inl refl)
lost_of todo log s i (inr k) = let (fs, e) = k.lost i in (fs, e, inr (k.held, k.all))

-- Any number of threads queue, each a list of commands, while the main thread takes commands out and
-- goes on from its test only when no thread is putting bytes into the ring. In any order of the
-- steps: what the main thread has sent is a first part of the payloads for which there was room, each
-- whole and in the order in which their threads got the mutex; and those of each thread are a first
-- part of what that thread was to queue, in its order, in front of what it has still to queue, with
-- nothing lost in between unless the mutex is held while no thread is behind it to release it.
pub Runs-in_order :
    {todo : ℕ → List Frame} {log : List (ℕ × Frame)} {s : Shared} (i : ℕ)
    → Runs IsSettled todo log s
    → (later : List Bytes) × (lost : List Frame) × (payloads (frames_of log) ≡ s.sent ++ later)
      × (todo i ≡ of_thread i log ++ (lost ++ left (s.workers i)))
      × ((lost ≡ []) ⊎ ((s.qik.mutex ≡ true) × ((j : ℕ) → IsCalling (s.workers j))))
Runs-in_order {todo} {log} {s} i r =
    let (p, run, hold) = Runs-Run IsSettled IsQuiet todo IsSettled-IsQuiet r in
    let (later, order, rest) = Run-sent run in
    let (lost, own, none) = lost_of todo log s i (Runs-Kept r) in (later, lost, order, own, none)
