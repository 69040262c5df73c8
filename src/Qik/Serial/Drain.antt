-- ===== src/Qik/Serial/Drain.antt =====
-- `DequeueQikCommand` sends every queued command, in order.
use telebra.Base.{
  ℕ, zero, suc, ◌+◌, ◌*◌, ◌%◌, ◌^◌, ◌≤◌, ◌<◌, ◌≡◌, refl, ◌∙◌, inl, inr, Bool, true, false, not, All,
  List, [], ◌∷◌, ◌++◌, append_assoc, append-nil, arith, ◌==◌, if◌then◌else◌, Bytes, length, drop,
  length-append, length-drop, take-append, replicate, returned, >>=-returned, ==_iff, ne→not_==,
}
use mathlib.Core.Path.{subst}
use telebra.Qik.State.{Qik}
use telebra.Qik.Queue.{flag, pull_byte, pull_payload}
use telebra.Qik.Queue.Spans.{Holds-same, Holds-end}
use telebra.Qik.Queue.Pull.{skip, pull_byte-Holds, pull_payload-Holds}
use telebra.Qik.Queue.Fifo.{Frame, encode_all, Queues}
use telebra.Qik.Serial.{
  Moment, get_current_time, starts_motor, send_command, dequeue_one, dequeue_loop,
  dequeue_qik_command,
}
use telebra.Qik.Serial.Await.{Ends}
use telebra.Qik.Serial.Send.{Stamped, Shutoff, send_command-Sent}

-- Up to reading number `horizon`, each reading is followed within `spins` readings by one that is a
-- command's timeout later than any reading before.
pub record Ticks (env : ℕ → Moment) (spins horizon : ℕ) : Type 0 where
  pub some_spins : 0 < spins
  pub passes :
      (j m : ℕ)
      → j < m
      → m < horizon
      → (k : ℕ) × (k < spins)
        × ((get_current_time (env j) + 100000) % 2 ^ 64 ≤ get_current_time (env (m + k)))

abbrev pub payloads : List Frame → List Bytes
payloads [] = []
payloads (f ∷ fs) = f.payload ∷ payloads fs

-- Whether a command starts a motor, whatever old bytes stand behind it in the buffer.
abbrev pub Starts : Bool → Frame → Type 0
Starts b f = (stale : Bytes) → starts_motor (f.payload ++ stale) ≡ b

abbrev pub LastStarts : List Frame → Type 0
LastStarts [] = ⊥
LastStarts (f ∷ []) = Starts true f
LastStarts (f ∷ g ∷ fs) = LastStarts (g ∷ fs)

module _ (env : ℕ → Moment) where
  Stamped-Ends :
      {spins horizon : ℕ} (s : Qik)
      → Ticks env spins horizon
      → Stamped env s
      → s.moment < horizon
      → (k : ℕ) × (k < spins) × Ends env k s
  Stamped-Ends s c (inl none_pending) lt = (0, c.some_spins, inl none_pending)
  Stamped-Ends s c (inr (j, before, at)) lt =
      let (k, small, late) = c.passes j s.moment before lt in (k, small, inr (rw at late))

  Shutoff-same :
      (b : Bool) (s m t : Qik)
      → m.moment ≡ s.moment
      → m.motor_shutoff_time ≡ s.motor_shutoff_time
      → Shutoff env b m t
      → Shutoff env b s t
  Shutoff-same true s m t at e (j, low, high, set) = (j, omega (arith, low), high, set)
  Shutoff-same false s m t at e kept = kept ∙ e

  -- One command, and then others: the last of all decides.
  Shutoff-trans :
      (f : Frame) (fs : List Frame) (s t u : Qik)
      → ((b : Bool) → Starts b f → Shutoff env b s t)
      → s.moment ≤ t.moment
      → t.moment ≤ u.moment
      → (All (Starts false) fs → Shutoff env false t u)
      → (LastStarts fs → Shutoff env true t u)
      → LastStarts (f ∷ fs)
      → Shutoff env true s u
  Shutoff-trans f [] s t u first a b kept set last =
      let (j, low, high, e) = first true last in (j, low, omega (arith, high), kept tt ∙ e)
  Shutoff-trans f (g ∷ gs) s t u first a b kept set last =
      let (j, low, high, e) = set last in (j, omega (arith, low), high, e)

  -- One command off the queue and on the wire.
  pub record Dequeued (spins : ℕ) (f : Frame) (fs : List Frame) (s t : Qik) : Type 0 where
    pub queues : Queues t fs
    pub mutex_same : t.mutex ≡ s.mutex
    pub port_same : t.port_open ≡ s.port_open
    pub wire_grows : t.wire ≡ (if s.port_open then s.wire ++ f.payload ∷ [] else s.wire)
    pub stamped : Stamped env t
    pub shutoff : (b : Bool) → Starts b f → Shutoff env b s t
    pub later : s.moment ≤ t.moment
    pub soon : t.moment ≤ s.moment + spins + 2

  pub dequeue_one-Dequeued :
      (spins horizon : ℕ) (f : Frame) (fs : List Frame) (tmp : Bytes) (s : Qik)
      → Ticks env spins horizon
      → Queues s (f ∷ fs)
      → Stamped env s
      → s.moment < horizon
      → length tmp ≡ 16
      → (t : Qik) × (tmp' : Bytes) × (dequeue_one env spins tmp s ≡ returned tmp' t)
        × (length tmp' ≡ 16)
        × Dequeued spins f fs s t
  unfolding dequeue_one
  dequeue_one-Dequeued spins horizon f fs tmp s c q st lt full =
      let h = q.holds in
      let p = f.payload in
      let (read_len, h1) = pull_byte-Holds (length p) (flag f.expects ∷ (p ++ encode_all fs)) h in
      let (read_flag, h2) = pull_byte-Holds (flag f.expects) (p ++ encode_all fs) h1 in
      let (read_rest, h3) =
        pull_payload-Holds p (encode_all fs) tmp (skip 1 (skip 1 s)) h2 q.short.0 full in
      let tmp' = p ++ drop (length p) tmp in
      let at = skip (length p) (skip 1 (skip 1 s)) in
      let (k, small, ends) = Stamped-Ends at c st lt in
      let (t, run, sent) =
        send_command-Sent env spins k tmp' (length p) (not (flag f.expects == 0)) at small ends in
      (
        t,
        tmp',
        >>=-returned pull_byte _ read_len
            ∙ >>=-returned pull_byte _ read_flag
            ∙ >>=-returned (pull_payload (length p) 0 tmp) _ read_rest
            ∙ >>=-returned (send_command env spins tmp' (length p) (not (flag f.expects == 0))) _
                run,
        omega (arith, length-append p (drop (length p) tmp), length-drop (length p) tmp),
        record {
          queues = record {
            holds =
                Holds-same t (encode_all fs) sent.kept.queue_same sent.kept.head_same
                  sent.kept.tail_same h3;
            short = q.short.1;
          };
          mutex_same = sent.kept.mutex_same;
          port_same = sent.kept.port_same;
          wire_grows = rw (take-append p (drop (length p) tmp)) at sent.wire_grows;
          stamped = sent.stamped;
          shutoff = λ b says.
              Shutoff-same b s at t refl refl
                (subst (λ c. Shutoff env c at t) (says (drop (length p) tmp)) sent.shutoff);
          later = omega (arith, sent.later);
          soon = sent.soon;
        },
      )

  -- Everything off the queue and on the wire.
  pub record Drained (spins : ℕ) (fs : List Frame) (s t : Qik) : Type 0 where
    pub queues : Queues t []
    pub mutex_same : t.mutex ≡ s.mutex
    pub port_same : t.port_open ≡ s.port_open
    pub wire_grows : t.wire ≡ (if s.port_open then s.wire ++ payloads fs else s.wire)
    pub stamped : Stamped env t
    pub later : s.moment ≤ t.moment
    pub soon : t.moment ≤ s.moment + (spins + 2) * length fs
    pub shutoff_kept : All (Starts false) fs → Shutoff env false s t
    pub shutoff_set : LastStarts fs → Shutoff env true s t

  -- The head meets the tail exactly at the end.
  head-ne-tail :
      (s : Qik) (f : Frame) (fs : List Frame) → Queues s (f ∷ fs) → (s.head == s.tail) ≡ false
  head-ne-tail s f fs q = ne→not_== _ _ λ e.
      let h = q.holds in
      absurd (omega (arith, e, Holds-end (encode_all (f ∷ fs)) h, h.head_in, h.room))

  dequeue_loop-Drained :
      (n spins horizon : ℕ) (fs : List Frame) (tmp : Bytes) (s : Qik)
      → length fs < n
      → Ticks env spins horizon
      → Queues s fs
      → Stamped env s
      → s.moment + (spins + 2) * length fs ≤ horizon
      → length tmp ≡ 16
      → (t : Qik) × (dequeue_loop env n spins tmp s ≡ returned tt t) × Drained spins fs s t
  unfolding dequeue_loop
  dequeue_loop-Drained zero spins horizon fs tmp s lt c q st end full = absurd (omega arith)
  dequeue_loop-Drained (suc n) spins horizon [] tmp s lt c q st end full = (
    s,
    rw ((==_iff s.head s.tail).1 q.holds.spans),
    record {
      queues = q;
      mutex_same = refl;
      port_same = refl;
      wire_grows = ground (arith, append-nil s.wire);
      stamped = st;
      later = omega arith;
      soon = omega arith;
      shutoff_kept = λ h. refl;
      shutoff_set = λ h. absurd h;
    },
  )
  dequeue_loop-Drained (suc n) spins horizon (f ∷ fs) tmp s lt c q st end full =
      let (t, tmp', run, full', d) =
        dequeue_one-Dequeued spins horizon f fs tmp s c q st (grind arith) full in
      let (u, loop, rest) =
        dequeue_loop-Drained n spins horizon fs tmp' t (omega arith) c d.queues d.stamped
          (grind (arith, d.soon)) full' in
      (
        u,
        rw (head-ne-tail s f fs q) (>>=-returned (dequeue_one env spins tmp) _ run ∙ loop),
        record {
          queues = rest.queues;
          mutex_same = rest.mutex_same ∙ d.mutex_same;
          port_same = rest.port_same ∙ d.port_same;
          wire_grows = ground (
            arith,
            rest.wire_grows,
            d.wire_grows,
            append_assoc s.wire (f.payload ∷ []) (payloads fs),
          );
          stamped = rest.stamped;
          later = omega (arith, d.later, rest.later);
          soon = grind (arith, d.soon, rest.soon);
          shutoff_kept = λ h. rest.shutoff_kept h.1 ∙ d.shutoff false h.0;
          shutoff_set =
              Shutoff-trans f fs s t u d.shutoff d.later rest.later rest.shutoff_kept
                rest.shutoff_set;
        },
      )

length-encode_all : (fs : List Frame) → 2 * length fs ≤ length (encode_all fs)
length-encode_all [] = omega arith
length-encode_all (f ∷ fs) =
    omega (arith, length-encode_all fs, length-append f.payload (encode_all fs))

pub dequeue_qik_command-Drained :
    (env : ℕ → Moment) (spins horizon : ℕ) (fs : List Frame) (s : Qik)
    → Ticks env spins horizon
    → Queues s fs
    → Stamped env s
    → s.moment + (spins + 2) * length fs ≤ horizon
    → (t : Qik) × (dequeue_qik_command env spins s ≡ returned tt t) × Drained env spins fs s t
unfolding dequeue_qik_command
dequeue_qik_command-Drained env spins horizon fs s c q st end =
    dequeue_loop-Drained env 1024 spins horizon fs (replicate 16 0) s
      (omega (arith, length-encode_all fs, q.holds.room)) c q st end refl
