-- ===== src/Qik/Workers/Exclusion.antt =====
-- One thread at most is between the lock and the unlock, and so the threads together do what one
-- thread does that queues one command after the other.
use telebra.Base.{
  ℕ, ◌≡◌, ◌≢◌, ◌⊎◌, inl, inr, refl, sym, ap, ◌∙◌, true, false, List, [], ◌∷◌, ◌++◌, ==_refl,
  ne→not_==, ℕ_discrete,
}
use mathlib.Core.Path.{subst}
use telebra.Qik.State.{Qik}
use telebra.Qik.Queue.{size_used, put_byte}
use telebra.Qik.Queue.Fifo.{Frame, encode}
use telebra.Qik.Serial.Drain.{payloads}
use telebra.Qik.Threads.{Producer, outside, putting, System, Run}
use telebra.Qik.Workers.{
  Worker, calling, locked, filling, Shared, update, lock, Runs, starts, locks, accepts, refuses,
  puts, unlocks, tests, takes_length, takes_flag, takes_byte, sends,
}

abbrev pub IsCalling : Worker → Type 0
IsCalling (calling fs) = Unit
IsCalling _ = ⊥

-- What a thread behind the lock is for the view of a single thread that queues.
abbrev pub Inside : Worker → Producer → Type 0
Inside (calling fs) p = ⊥
Inside (locked f fs) p = p ≡ outside
Inside (filling bs fs) p = p ≡ putting bs

-- No thread is between the lock and the unlock, or just one is, which holds the mutex.
abbrev pub Holding : Shared → Producer → Type 0
Holding s p =
    (((j : ℕ) → IsCalling (s.workers j)) × (p ≡ outside))
    ⊎ ((i : ℕ) × (s.qik.mutex ≡ true)
        × Inside (s.workers i) p
        × ((j : ℕ) → j ≢ i → IsCalling (s.workers j)))

-- The threads as one, with the mutex left out.
abbrev pub view : Shared → Producer → System
view s p = record { qik = lock false s.qik; producer = p; consumer = s.consumer; sent = s.sent }

abbrev pub frames_of : List (ℕ × Frame) → List Frame
frames_of [] = []
frames_of ((i, f) ∷ log) = f ∷ frames_of log

payloads-frames_of :
    (log : List (ℕ × Frame)) (i : ℕ) (f : Frame)
    → payloads (frames_of (log ++ (i, f) ∷ [])) ≡ payloads (frames_of log) ++ f.payload ∷ []
payloads-frames_of [] i f = refl
payloads-frames_of ((j, g) ∷ log) i f = ap (λ l. g.payload ∷ l) (payloads-frames_of log i f)

pub update_self : {A : Type 0} (f : ℕ → A) (i : ℕ) (a : A) → update f i a i ≡ a
update_self f i a = rw (==_refl i) refl

pub update_ne : {A : Type 0} (f : ℕ → A) (i j : ℕ) (a : A) → j ≢ i → update f i a j ≡ f j
update_ne f i j a ne = rw (ne→not_== i j (λ e. ne (sym e))) refl

-- A step of thread `i`, which is the only one that may be inside.
pub alone :
    (s : Shared) (p : Producer) (i : ℕ) (w : Worker)
    → Holding s p
    → s.workers i ≡ w
    → (IsCalling w → ⊥)
    → (s.qik.mutex ≡ true) × Inside w p × ((j : ℕ) → j ≢ i → IsCalling (s.workers j))
alone s p i w (inl (all, out)) e ne = absurd (ne (subst IsCalling e (all i)))
alone s p i w (inr (k, held, at, others)) e ne = elim (ℕ_discrete i k) [
  | yes same ↦ (
    held,
    subst (λ v. Inside v p) (ap s.workers (sym same) ∙ e) at,
    λ j d. others j (λ q. d (q ∙ sym same)),
  )
  | no differ ↦ absurd (ne (subst IsCalling e (others i differ)))
]

-- Thread `i` goes inside, or stays there.
Inside-Holding :
    (s : Shared) (q : Qik) (i : ℕ) (w : Worker) (p : Producer)
    → q.mutex ≡ true
    → Inside w p
    → ((j : ℕ) → j ≢ i → IsCalling (s.workers j))
    → Holding (record s { qik = q; workers = update s.workers i w }) p
Inside-Holding s q i w p held inside others = inr (
  i,
  held,
  subst (λ v. Inside v p) (sym (update_self s.workers i w)) inside,
  λ j d. subst IsCalling (sym (update_ne s.workers i j w d)) (others j d),
)

-- Thread `i` comes out.
pub update-IsCalling :
    (f : ℕ → Worker) (i : ℕ) (fs : List Frame)
    → ((j : ℕ) → j ≢ i → IsCalling (f j))
    → (j : ℕ) → IsCalling (update f i (calling fs) j)
update-IsCalling f i fs others j = elim (ℕ_discrete j i) [
  | yes same ↦
      subst IsCalling (sym (ap (update f i (calling fs)) same ∙ update_self f i (calling fs))) tt
  | no differ ↦ subst IsCalling (sym (update_ne f i j (calling fs) differ)) (others j differ)
]

module _ (P : Shared → Type 0) (Q : System → Type 0) (todo : ℕ → List Frame)
    (may : (s : Shared) (p : Producer) → Holding s p → P s → Q (view s p)) where
  -- Every run of the threads is one of a single thread that queues the commands in the same order.
  pub Runs-Run :
      {log : List (ℕ × Frame)} {s : Shared}
      → Runs P todo log s
      → (p : Producer) × Run Q (payloads (frames_of log)) (view s p) × Holding s p
  unfolding size_used put_byte
  Runs-Run starts = (outside, Run.starts, inl (λ j. tt, refl))
  Runs-Run (locks {s} i f fs r e free) =
      let (p, run, hold) = Runs-Run r in
      elim hold [
        | inl (all, out) ↦
            (p, run, Inside-Holding s (lock true s.qik) i (locked f fs) p refl out (λ j d. all j))
        | inr (k, held, at, others) ↦ absurd (cc)
      ]
  Runs-Run (accepts {log} {s} i f fs r e room) =
      let (p, run, hold) = Runs-Run r in
      let (held, out, others) = alone s p i (locked f fs) hold e (λ h. h) in
      (
        putting (encode f),
        subst (λ ps. Run Q ps (view s (putting (encode f)))) (sym (payloads-frames_of log i f))
            (Run.begins f.payload f.expects run out room),
        Inside-Holding s s.qik i (filling (encode f) fs) (putting (encode f)) held refl others,
      )
  Runs-Run (refuses {s} i f fs r e full) =
      let (p, run, hold) = Runs-Run r in
      let (held, out, others) = alone s p i (locked f fs) hold e (λ h. h) in
      (p, run, inl (update-IsCalling s.workers i fs others, out))
  Runs-Run (puts {s} i b bs fs r e) =
      let (p, run, hold) = Runs-Run r in
      let (held, at, others) = alone s p i (filling (b ∷ bs) fs) hold e (λ h. h) in
      (
        putting bs,
        Run.puts b bs run at,
        Inside-Holding s (put_byte b s.qik) i (filling bs fs) (putting bs) held refl others,
      )
  Runs-Run (unlocks {s} i fs r e) =
      let (p, run, hold) = Runs-Run r in
      let (held, at, others) = alone s p i (filling [] fs) hold e (λ h. h) in
      (outside, Run.unlocks run at, inl (update-IsCalling s.workers i fs others, refl))
  Runs-Run (tests {s} r c ne quiet) =
      let (p, run, hold) = Runs-Run r in (p, Run.tests run c ne (may s p hold quiet), hold)
  Runs-Run (takes_length r c) = let (p, run, hold) = Runs-Run r in (p, Run.takes_length run c, hold)
  Runs-Run (takes_flag len r c) =
      let (p, run, hold) = Runs-Run r in (p, Run.takes_flag len run c, hold)
  Runs-Run (takes_byte n got r c) =
      let (p, run, hold) = Runs-Run r in (p, Run.takes_byte n got run c, hold)
  Runs-Run (sends got r c) = let (p, run, hold) = Runs-Run r in (p, Run.sends got run c, hold)

inside_one :
    (s : Shared) (p : Producer) (i j : ℕ)
    → Holding s p
    → ¬ IsCalling (s.workers i)
    → ¬ IsCalling (s.workers j)
    → (i ≡ j) × (s.qik.mutex ≡ true)
inside_one s p i j (inl (all, out)) hi hj = absurd (hi (all i))
inside_one s p i j (inr (k, held, at, others)) hi hj =
    (holder s i k others hi ∙ sym (holder s j k others hj), held)
  where
    holder :
        (s : Shared) (i k : ℕ)
        → ((j : ℕ) → j ≢ k → IsCalling (s.workers j))
        → ¬ IsCalling (s.workers i)
        → i ≡ k
    holder s i k others h = elim (ℕ_discrete i k) [
      | yes same ↦ same
      | no differ ↦ absurd (h (others i differ))
    ]

-- However any number of threads queue and the main thread takes commands out: two threads that are
-- between the lock and the unlock of `QueueQikCommand` are the same one, and the mutex is then held.
pub Runs-exclusive :
    {P : Shared → Type 0} {todo : ℕ → List Frame} {log : List (ℕ × Frame)} {s : Shared} (i j : ℕ)
    → Runs P todo log s
    → ¬ IsCalling (s.workers i)
    → ¬ IsCalling (s.workers j)
    → (i ≡ j) × (s.qik.mutex ≡ true)
Runs-exclusive {P} {todo} {s} i j r hi hj =
    let (p, run, hold) = Runs-Run P (λ t. Unit {0}) todo (λ t q held quiet. tt) r in
    inside_one s p i j hold hi hj
