-- ===== src/Web/Accept.antt =====
-- `httpdMain` of MotorDriver/httpd.c against the threads that it starts: each thread is given the
-- address of `client_sock`, and reads it when it runs.
mod Tests
use telebra.Base.{
  ℕ, suc, ◌+◌, ◌≡◌, ◌⊎◌, inl, inr, refl, sym, ap, ◌∙◌, Bool, true, false, List, [], ◌∷◌, ◌++◌,
  arith, length, length-append,
}

-- `client_sock`; whether it was accepted and its thread is not created yet; how many threads were
-- created and have not read `client_sock` yet; and the sockets that threads took, the first one
-- first.
pub record Server : Type 0 where
  pub client_sock : ℕ
  pub creating : Bool
  pub waiting : ℕ
  pub handled : List ℕ

abbrev listening : Server
listening = record { client_sock = 0; creating = false; waiting = 0; handled = [] }

-- The runs, with the sockets for which a thread was created, in order. `may_accept` is what the
-- surroundings guarantee when `accept` returns.
pub data Run (may_accept : Server → Type 0) : List ℕ → Server → Type 0 where
  starts : Run may_accept [] listening
  accepts :
      {ns : List ℕ} {s : Server} (n : ℕ)
      → Run may_accept ns s
      → s.creating ≡ false
      → may_accept s
      → Run may_accept ns (record s { client_sock = n; creating = true })
  -- `pthread_create`
  creates :
      {ns : List ℕ} {s : Server}
      → Run may_accept ns s
      → s.creating ≡ true
      → Run may_accept
          (ns ++ s.client_sock ∷ [])
          (record s { creating = false; waiting = s.waiting + 1 })
  fails :
      {ns : List ℕ} {s : Server}
      → Run may_accept ns s
      → s.creating ≡ true
      → Run may_accept ns (record s { creating = false })
  -- a thread enters `accept_request` and reads its argument
  reads :
      {ns : List ℕ} {s : Server} (w : ℕ)
      → Run may_accept ns s
      → s.waiting ≡ suc w
      → Run may_accept ns (record s { waiting = w; handled = s.handled ++ s.client_sock ∷ [] })

-- No thread is still to read `client_sock`.
abbrev IsQuiet : Server → Type 0
IsQuiet s = s.waiting ≡ 0

abbrev pub AnyTime : Server → Type 0
AnyTime s = Unit

-- However accepts and threads interleave, each thread created handles one connection or is still to
-- read which one.
length-handled :
    {P : Server → Type 0} {ns : List ℕ} {s : Server}
    → Run P ns s
    → length s.handled + s.waiting ≡ length ns
length-handled starts = refl
length-handled (accepts n r e p) = length-handled r
length-handled (creates {ns} {s} r e) =
    omega (arith, length-handled r, length-append ns (s.client_sock ∷ []))
length-handled (fails r e) = length-handled r
length-handled (reads {ns} {s} w r e) =
    omega (arith, length-handled r, e, length-append s.handled (s.client_sock ∷ []))

-- The one thread that is still to read, if there is one, is for `client_sock`.
abbrev Matched : List ℕ → Server → Type 0
Matched ns s =
    ((s.waiting ≡ 0) × (s.handled ≡ ns))
    ⊎ ((s.waiting ≡ 1) × (s.creating ≡ false) × (s.handled ++ s.client_sock ∷ [] ≡ ns))

-- Where `accept` returns only when every thread created before has read `client_sock`, each
-- connection that got a thread is handled exactly once and in order, but for the one whose thread is
-- still to read.
Run-Matched : {ns : List ℕ} {s : Server} → Run IsQuiet ns s → Matched ns s
Run-Matched starts = inl (refl, refl)
Run-Matched (accepts n r e quiet) = elim (Run-Matched r) [
  | inl (w, h) ↦ inl (w, h)
  | inr (w, c, h) ↦ absurd (omega (arith, w, quiet))
]
Run-Matched (creates {ns} {s} r e) = elim (Run-Matched r) [
  | inl (w, h) ↦ inr (omega (arith, w), refl, ap (λ l. l ++ s.client_sock ∷ []) h)
  | inr (w, c, h) ↦ cc
]
Run-Matched (fails r e) = elim (Run-Matched r) [
  | inl (w, h) ↦ inl (w, h)
  | inr (w, c, h) ↦ inr (w, refl, h)
]
Run-Matched (reads w r e) = elim (Run-Matched r) [
  | inl (z, h) ↦ absurd (omega (arith, z, e))
  | inr (one, c, h) ↦ inl (omega (arith, one, e), h)
]

-- Where `accept` may return at any time, two connections can come so that both their threads handle
-- the second: the first is never handled, and the second is handled twice.
Run-race :
    (a b : ℕ)
    → (s : Server) × Run AnyTime (a ∷ b ∷ []) s × (s.waiting ≡ 0) × (s.handled ≡ b ∷ b ∷ [])
Run-race a b = (
  record { client_sock = b; creating = false; waiting = 0; handled = b ∷ b ∷ [] },
  reads 0
      (reads 1 (creates (accepts b (creates (accepts a starts refl tt) refl) refl tt) refl) refl)
      refl,
  refl,
  refl,
)
