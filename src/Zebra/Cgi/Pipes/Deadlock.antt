-- ===== src/Zebra/Cgi/Pipes/Deadlock.antt =====
-- How the server can be held up for ever, or ended, by a script.
use telebra.Base.{
  ℕ, zero, suc, ◌+◌, ◌≤◌, ◌≡◌, refl, ap, true, [], ◌∷◌, ◌++◌, append_assoc, append-nil, arith,
  Bytes, length, length-append, replicate, length-replicate,
}
use telebra.Zebra.Cgi.Pipes.{
  copying, killed, Cgi, forked, Run, begins, copies, repeats, signalled, copied_all, relays, ends,
  child_reads, child_writes, child_exits,
}

-- What the script writes.
abbrev pub zeros : ℕ → Bytes
zeros k = replicate k 0

-- The script has not read anything, and has written `k` bytes.
abbrev after_writes : ℕ → Cgi → Cgi
after_writes k c = record c { cgi_output = zeros k }

replicate_suc : (k : ℕ) → zeros k ++ 0 ∷ [] ≡ zeros (suc k)
replicate_suc zero = refl
replicate_suc (suc k) = ap (λ l. 0 ∷ l) (replicate_suc k)

-- The script fills its output pipe.
writes :
    (capacity n last k : ℕ) (input : Bytes)
    → k ≤ capacity
    → Run capacity (forked n input last) [] [] (zeros k) (after_writes k (forked n input last))
writes capacity n last zero input le = begins
writes capacity n last (suc k) input le = rw replicate_suc at (
    child_writes 0 (writes capacity n last k input (omega arith)) refl
      (omega (arith, length-replicate {A = ℕ} k 0)))

-- The byte received last, behind these.
abbrev pub last_of : ℕ → Bytes → ℕ
last_of l [] = l
last_of l (b ∷ bs) = last_of b bs

-- The server fills the script's input pipe.
copies_all :
    {capacity m l : ℕ} {start : Cgi} {pre written out rest : Bytes} (bs : Bytes)
    → length pre + length bs ≤ capacity
    → Run capacity start pre [] written (record {
      input = bs ++ rest;
      last = l;
      cgi_input = pre;
      cgi_output = out;
      server = copying (length bs + m);
      alive = true;
      sent = [];
    })
    → Run capacity start (pre ++ bs) [] written (record {
      input = rest;
      last = last_of l bs;
      cgi_input = pre ++ bs;
      cgi_output = out;
      server = copying m;
      alive = true;
      sent = [];
    })
copies_all {capacity} {m} {l} {start} {pre} [] le r =
    let none : copying (0 + m) ≡ copying m = ap copying (omega arith) in
    rw append-nil (rw none at r)
copies_all {capacity} {m} {l} {start} {pre} {written} {out} {rest} (b ∷ bs) le r =
    let next =
      copies (length bs + m) b (bs ++ rest) r (ap copying (omega arith)) refl refl (omega arith) in
    rw (append_assoc pre (b ∷ []) bs) at
      (copies_all {pre = pre ++ b ∷ []} bs (omega (arith, length-append pre (b ∷ []))) next)

-- Both pipes are full with the bytes `bs` and as many zeros, and `m + 1` bytes of the content are
-- still to copy.
abbrev pub full_pipes : (m last : ℕ) → (bs rest : Bytes) → Cgi
full_pipes m last bs rest = record {
  input = rest;
  last = last_of last bs;
  cgi_input = bs;
  cgi_output = zeros (length bs);
  server = copying (suc m);
  alive = true;
  sent = [];
}

-- Both pipes are full: from here on nothing moves before the script reads or exits.
held_up :
    {capacity m : ℕ} {start s : Cgi} {copied taken written : Bytes}
    → Run capacity start copied taken written s
    → start.server ≡ copying (suc m)
    → length start.cgi_input ≡ capacity
    → length start.cgi_output ≡ capacity
    → taken ≡ []
    → s.alive ≡ true
    → (s ≡ start) × (copied ≡ []) × (written ≡ [])
held_up begins e i o t a = (refl, refl, refl)
held_up (copies n b rest r x y alive room) e i o t a =
    let (same, u, v) = held_up r e i o t alive in
    absurd (omega (arith, room, i, ap (λ s. length s.cgi_input) same))
held_up (repeats n r x y alive room) e i o t a =
    let (same, u, v) = held_up r e i o t alive in
    absurd (omega (arith, room, i, ap (λ s. length s.cgi_input) same))
held_up (signalled n r x dead) e i o t a = cc
held_up (copied_all r x) e i o t a =
    let (same, u, v) = held_up r e i o t a in absurd (let z = ap (λ s. s.server) same in cc)
held_up (relays b rest r x y) e i o t a =
    let (same, u, v) = held_up r e i o t a in absurd (let z = ap (λ s. s.server) same in cc)
held_up (ends r x y dead) e i o t a = cc
held_up (child_reads {copied} {taken} b rest r alive y) e i o t a =
    absurd (omega (arith, ap length t, length-append taken (b ∷ [])))
held_up (child_writes b r alive room) e i o t a =
    let (same, u, v) = held_up r e i o t alive in
    absurd (omega (arith, room, o, ap (λ s. length s.cgi_output) same))
held_up (child_exits r alive) e i o t a = cc

-- A pipe takes as many bytes as `bs` has, and the content is longer; the client sends `bs` and more,
-- and the script fills its output before it reads anything. There is a run to a state in which both
-- pipes are full. However a run goes on from there, as long as the script has read nothing and not
-- exited, it has not moved at all: the server waits for the script to read, and a script that has
-- more to write waits for the server.
pub Run-deadlock :
    (m last : ℕ) (bs rest : Bytes) {copied taken written : Bytes} {s : Cgi}
    → let capacity = length bs in
      Run capacity (full_pipes m last bs rest) copied taken written s
      → taken ≡ []
      → s.alive ≡ true
      → Run capacity
          (forked (capacity + suc m) (bs ++ rest) last)
          bs
          []
          (zeros capacity)
          (full_pipes m last bs rest)
        × (s ≡ full_pipes m last bs rest)
        × (copied ≡ [])
        × (written ≡ [])
Run-deadlock m last bs rest r t a =
    let full = writes (length bs) (length bs + suc m) last (length bs) (bs ++ rest) (omega arith) in
    let (same, none, nothing) = held_up r refl refl (length-replicate {A = ℕ} (length bs) 0) t a in
    (copies_all {m = suc m} {pre = []} {rest = rest} bs (omega arith) full, same, none, nothing)

-- A script that exits before all of the content was copied ends the whole server.
pub Run-killed :
    {capacity n last m : ℕ} {input copied taken written : Bytes} {s : Cgi}
    → Run capacity (forked n input last) copied taken written s
    → s.server ≡ copying (suc m)
    → s.alive ≡ true
    → (t : Cgi) × Run capacity (forked n input last) copied taken written t × (t.server ≡ killed)
Run-killed {m = m} r e a = (_, signalled m (child_exits r a) e refl, refl)
