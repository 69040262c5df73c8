-- ===== src/Zebra/Cgi/Pipes/Tests.antt =====
-- The theorems on the pipes at concrete runs.
use telebra.Base.{◌≡◌, refl, [], ◌∷◌, ◌++◌, arith, Bytes, length}
use telebra.Zebra.Cgi.Pipes.{
  copying, finished, Cgi, forked, Run, begins, copies, copied_all, relays, ends, child_reads,
  child_writes, child_exits,
}
use telebra.Zebra.Cgi.Pipes.Relay.{Run-relayed}
use telebra.Zebra.Cgi.Pipes.Deadlock.{zeros, full_pipes, Run-deadlock}

abbrev two_bytes : Cgi
two_bytes = forked 2 (5 ∷ 6 ∷ 7 ∷ []) 0

-- Both bytes of the content are copied; the script reads one, answers with another, and exits.
answered : (s : Cgi) × Run 2 two_bytes (5 ∷ 6 ∷ []) (5 ∷ []) (9 ∷ []) s × (s.server ≡ finished)
answered =
    let first : Run 2 two_bytes (5 ∷ []) [] [] (record two_bytes {
      input = 6 ∷ 7 ∷ [];
      last = 5;
      cgi_input = 5 ∷ [];
      server = copying 1;
    }) =
      copies 1 5 (6 ∷ 7 ∷ []) begins refl refl refl (omega arith) in
    let read = child_reads 5 [] first refl refl in
    let wrote = child_writes 9 read refl (omega arith) in
    let both = copies 0 6 (7 ∷ []) wrote refl refl refl (omega arith) in
    let exited = child_exits (copied_all both refl) refl in
    (_, ends (relays 9 [] exited refl refl) refl refl refl, refl)

Run-relayed_example :
    (answered.0.sent ≡ (9 ∷ []) ∷ [])
    × (unread : Bytes) × ((5 ∷ []) ++ unread ++ answered.0.input ≡ 5 ∷ 6 ∷ 7 ∷ [])
    × (length ((5 ∷ []) ++ unread) ≡ 2)
Run-relayed_example = Run-relayed answered.1 answered.2 (omega arith)

half :
    Run 2 two_bytes
      (5 ∷ [])
      []
      []
      (record two_bytes { input = 6 ∷ 7 ∷ []; last = 5; cgi_input = 5 ∷ []; server = copying 1 })
half = copies 1 5 (6 ∷ 7 ∷ []) begins refl refl refl (omega arith)

abbrev nothing : Bytes
nothing = []

Run-deadlock_example :
    Run 2
      (forked 3 (5 ∷ 6 ∷ 7 ∷ []) 0)
      (5 ∷ 6 ∷ [])
      []
      (zeros 2)
      (full_pipes 0 0 (5 ∷ 6 ∷ []) (7 ∷ []))
    × (full_pipes 0 0 (5 ∷ 6 ∷ []) (7 ∷ []) ≡ full_pipes 0 0 (5 ∷ 6 ∷ []) (7 ∷ []))
    × (nothing ≡ [])
    × (nothing ≡ [])
Run-deadlock_example = Run-deadlock 0 0 (5 ∷ 6 ∷ []) (7 ∷ []) begins refl refl
