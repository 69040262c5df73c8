-- ===== src/Web/Startup/Listening.antt =====
-- `httpdMain` where the socket is set up: which connections get a thread, and a failing `accept`.
use telebra.Base.{
  ℕ, zero, suc, ◌+◌, ◌≤◌, ◌<◌, ◌≡◌, ◌⊎◌, inl, inr, refl, sym, ap, ◌∙◌, true, false, Bool-cases,
  List, [], ◌∷◌, ◌++◌, append-nil, append_assoc, arith, ◌==◌, if◌then◌else◌, Bytes, codes, ℤ, pos,
  minus_one, int_eq, returned, running, exited, ◌>>=◌, >>=-returned,
}
use telebra.Web.Accept.{Server, Run, AnyTime}
use telebra.Web.Startup.{
  Sockets, Listener, initial_listener, negative, perror, error_die, bind_loop, assigned_port,
  startup, create_thread, accept_loop, httpd_main,
}

-- The socket is made, `bind` works in its call `k`, before the fuel is used up, and what follows
-- works too; a port of 0 asks for one that the system assigns.
pub record Works (l : Sockets) (fuel k port : ℕ) : Type 0 where
  pub made : int_eq l.socket minus_one ≡ false
  pub fueled : k < fuel
  pub retries : (j : ℕ) → j < k → negative (l.bind j (l.htons port)) ≡ true
  pub binds : negative (l.bind k (l.htons port)) ≡ false
  pub names : ((port == 0) ≡ false) ⊎ (int_eq l.getsockname minus_one ≡ false)
  pub listens : negative l.listen ≡ false

-- The port that the socket has.
abbrev pub port_of : Sockets → ℕ → ℕ
port_of l port = if port == 0 then l.ntohs l.assigned else port

-- The sockets of the `n` rounds from `i` on for which a thread could be created.
abbrev pub served : Sockets → (i n : ℕ) → List ℤ
served l i zero = []
served l i (suc n) =
    (if int_eq (l.create i) (pos 0) then l.accept i ∷ [] else []) ++ served l (i + 1) n

abbrev pub ints : List ℕ → List ℤ
ints [] = []
ints (n ∷ ns) = pos n ∷ ints ns

append-nil_assoc : (xs ys zs : List ℤ) → (xs ++ (ys ++ [])) ++ zs ≡ xs ++ (ys ++ zs)
append-nil_assoc xs ys zs = rw (append-nil ys) (append_assoc xs ys zs)

module _ (l : Sockets) where
  -- The loop around `bind` up to its call `m`, the first that works, `k` calls later.
  bind_loop-binds :
      (fuel k m : ℕ) (s : Listener)
      → k < fuel
      → m ≡ s.binds + k
      → ((j : ℕ) → s.binds ≤ j → j < m → negative (l.bind j (l.htons s.port)) ≡ true)
      → negative (l.bind m (l.htons s.port)) ≡ false
      → bind_loop l fuel s ≡ returned tt (record s { binds = m + 1 })
  unfolding bind_loop
  bind_loop-binds zero k m s lt at h e = absurd (omega (arith, lt))
  bind_loop-binds (suc n) zero m s lt at h e =
      let now : s.binds ≡ m = omega (arith, at) in rw (now, e) refl
  bind_loop-binds (suc n) (suc k) m s lt at h e = rw (h s.binds (omega arith) (omega (arith, at))) (
      bind_loop-binds n k m (record s { binds = s.binds + 1 }) (omega (arith, lt))
        (omega (arith, at)) (λ j low high. h j (omega (arith, low)) high) e)

  assigned_port-returns :
      (s : Listener)
      → ((s.port == 0) ≡ false) ⊎ (int_eq l.getsockname minus_one ≡ false)
      → assigned_port l s ≡ returned tt (record s { port = port_of l s.port })
  unfolding assigned_port
  assigned_port-returns s (inl given) = rw given refl
  assigned_port-returns s (inr named) = elim (Bool-cases (s.port == 0)) [
    | inl asked ↦ rw (asked, named) refl
    | inr given ↦ rw given refl
  ]

  startup-Works :
      (fuel k port : ℕ)
      → Works l fuel k port
      → startup l fuel (initial_listener port)
        ≡ returned l.socket
            (record (initial_listener port) { binds = k + 1; port = port_of l port })
  unfolding startup
  startup-Works fuel k port w =
      let bound =
        bind_loop-binds fuel k k (initial_listener port) w.fueled (omega arith)
          (λ j low. w.retries j) w.binds in
      let named =
        assigned_port-returns (record (initial_listener port) { binds = k + 1 }) w.names in
      rw (w.made, ◌>>=◌) (rw (bound, ◌>>=◌) (rw (named, ◌>>=◌) (rw w.listens refl)))

  -- What `n` rounds in which `accept` works make of the state `s`.
  record Rounds (n : ℕ) (s t : Listener) : Type 0 where
    accepts_grow : t.accepts ≡ s.accepts + n
    created_grow : t.created ≡ s.created ++ served l s.accepts n
    binds_same : t.binds ≡ s.binds
    port_same : t.port ≡ s.port

  -- The state behind `accept` in a round.
  abbrev accepted : Listener → Listener
  accepted s = record s { client_sock = l.accept s.accepts; accepts = s.accepts + 1 }

  create_thread-Rounds : (s : Listener) → Rounds 1 s (create_thread l s.accepts (accepted s))
  create_thread-Rounds s = elim (Bool-cases (int_eq (l.create s.accepts) (pos 0))) [
    | inl made ↦ rw made record {
      accepts_grow = refl;
      created_grow = rw made refl;
      binds_same = refl;
      port_same = refl;
    }
    | inr failed ↦ rw failed record {
      accepts_grow = refl;
      created_grow = rw failed (sym (append-nil s.created));
      binds_same = refl;
      port_same = refl;
    }
  ]

  Rounds-suc : (n : ℕ) (s t u : Listener) → Rounds 1 s t → Rounds n t u → Rounds (suc n) s u
  Rounds-suc n s t u a b = record {
    accepts_grow = omega (arith, a.accepts_grow, b.accepts_grow);
    created_grow =
        rw (b.created_grow, a.accepts_grow, a.created_grow)
          (append-nil_assoc s.created
            (if int_eq (l.create s.accepts) (pos 0) then l.accept s.accepts ∷ [] else [])
            (served l (s.accepts + 1) n));
    binds_same = b.binds_same ∙ a.binds_same;
    port_same = b.port_same ∙ a.port_same;
  }

  accept_loop-Rounds :
      (n fuel : ℕ) (s : Listener)
      → n ≤ fuel
      → ((j : ℕ) → s.accepts ≤ j → j < s.accepts + n → int_eq (l.accept j) minus_one ≡ false)
      → (t : Listener) × (rest : ℕ) × (fuel ≡ n + rest)
        × (accept_loop l fuel s ≡ accept_loop l rest t)
        × Rounds n s t
  unfolding accept_loop
  accept_loop-Rounds zero fuel s le ok = (
    s,
    fuel,
    omega arith,
    refl,
    record {
      accepts_grow = omega arith;
      created_grow = sym (append-nil s.created);
      binds_same = refl;
      port_same = refl;
    },
  )
  accept_loop-Rounds (suc n) zero s le ok = absurd (omega (arith, le))
  accept_loop-Rounds (suc n) (suc fuel) s le ok =
      let next = create_thread l s.accepts (accepted s) in
      let one = create_thread-Rounds s in
      let (t, rest, sum, run, more) =
        accept_loop-Rounds n fuel next (omega (arith, le)) (λ j low high.
          ok j (omega (arith, one.accepts_grow, low)) (omega (arith, one.accepts_grow, high))) in
      (
        t,
        rest,
        omega (arith, sum),
        rw (ok s.accepts (omega arith) (omega arith)) run,
        Rounds-suc n s next t one more,
      )

  accept_loop-zero : (s : Listener) → accept_loop l 0 s ≡ running s
  unfolding accept_loop
  accept_loop-zero s = refl

  accept_loop_fails :
      (rest : ℕ) (s : Listener)
      → 0 < rest
      → l.accept s.accepts ≡ minus_one
      → accept_loop l rest s ≡ exited (perror (codes "accept") (accepted s))
  unfolding accept_loop error_die
  accept_loop_fails zero s lt failed = absurd (omega (arith, lt))
  accept_loop_fails (suc n) s lt failed = rw failed refl

  -- What the loop does is a run of the server, in which no thread has read `client_sock` yet.
  served-Run :
      (n i : ℕ) (ns : List ℕ) (v : Server)
      → Run AnyTime ns v
      → v.creating ≡ false
      → ((j : ℕ) → i ≤ j → j < i + n → (fd : ℕ) × (l.accept j ≡ pos fd))
      → (ms : List ℕ) × (w : Server) × (served l i n ≡ ints ms) × Run AnyTime (ns ++ ms) w
  served-Run zero i ns v r idle ok = ([], v, refl, rw (append-nil ns) r)
  served-Run (suc n) i ns v r idle ok =
      let (fd, is_fd) = ok i (omega arith) (omega arith) in
      let later : (j : ℕ) → i + 1 ≤ j → j < i + 1 + n → (fd : ℕ) × (l.accept j ≡ pos fd) =
        λ j low high. ok j (omega (arith, low)) (omega (arith, high)) in
      elim (Bool-cases (int_eq (l.create i) (pos 0))) [
        | inl made ↦
            let (ms, w, s, q) =
              served-Run n (i + 1) (ns ++ fd ∷ []) _ (Run.creates (Run.accepts fd r idle tt) refl)
                refl later in
            (fd ∷ ms, w, rw (made, is_fd, s) refl, rw (sym (append_assoc ns (fd ∷ []) ms)) q)
        | inr failed ↦
            let (ms, w, s, q) =
              served-Run n (i + 1) ns _ (Run.fails (Run.accepts fd r idle tt) refl) refl later in
            (ms, w, rw (failed, s) refl, q)
      ]

  httpd_main-accept_loop :
      (fuel k port rounds : ℕ)
      → Works l fuel k port
      → httpd_main l fuel rounds port
        ≡ accept_loop l rounds
            (record (initial_listener port) { binds = k + 1; port = port_of l port })
  unfolding httpd_main
  httpd_main-accept_loop fuel k port rounds w =
      >>=-returned (startup l fuel) (λ server_sock. accept_loop l rounds)
        (startup-Works fuel k port w)

-- Where the listening socket can be set up and `accept` works in the rounds so far: `bind` was called
-- until it worked, the socket has the port asked for, or the one that the system assigned, and
-- exactly the connections for which a thread could be created were given to one, in order. That is
-- a run of the server in which `accept` returns at any time, whatever the threads do.
pub httpd_main-serves :
    (l : Sockets) (fuel k port rounds : ℕ)
    → Works l fuel k port
    → ((j : ℕ) → j < rounds → (fd : ℕ) × (l.accept j ≡ pos fd))
    → (s : Listener) × (httpd_main l fuel rounds port ≡ running s)
      × (s.binds ≡ k + 1)
      × (s.port ≡ port_of l port)
      × (s.created ≡ served l 0 rounds)
      × ((ns : List ℕ) × (v : Server) × (s.created ≡ ints ns) × Run AnyTime ns v)
httpd_main-serves l fuel k port rounds w ok =
    let up : Listener = record (initial_listener port) { binds = k + 1; port = port_of l port } in
    let (t, rest, sum, run, r) =
      accept_loop-Rounds l rounds rounds up (omega arith)
        (λ j low high. let (fd, is_fd) = ok j (omega (arith, high)) in rw is_fd refl) in
    let (ns, v, s, q) =
      served-Run l rounds 0 [] _ Run.starts refl (λ j low high. ok j (omega (arith, high))) in
    let none_left : rest ≡ 0 = omega (arith, sum) in
    (
      t,
      httpd_main-accept_loop l fuel k port rounds w ∙ run ∙ rw none_left (accept_loop-zero l t),
      r.binds_same,
      r.port_same,
      r.created_grow,
      (ns, v, r.created_grow ∙ s, q),
    )

-- Where the listening socket can be set up, a call of `accept` that fails ends the whole process: in
-- the rounds before, exactly the connections for which a thread could be created were given to one,
-- in order, and "accept" is the last error reported.
pub httpd_main_accept_error :
    (l : Sockets) (fuel k port rounds n : ℕ)
    → Works l fuel k port
    → ((j : ℕ) → j < n → int_eq (l.accept j) minus_one ≡ false)
    → l.accept n ≡ minus_one
    → n < rounds
    → (s : Listener) × (lines : List Bytes) × (httpd_main l fuel rounds port ≡ exited s)
      × (s.created ≡ served l 0 n)
      × (s.errors ≡ lines ++ codes "accept" ∷ [])
httpd_main_accept_error l fuel k port rounds n w ok failed lt =
    let up : Listener = record (initial_listener port) { binds = k + 1; port = port_of l port } in
    let (t, rest, sum, run, r) =
      accept_loop-Rounds l n rounds up (omega (arith, lt))
        (λ j low high. ok j (omega (arith, high))) in
    let at : t.accepts ≡ n = omega (arith, r.accepts_grow) in
    (
      perror (codes "accept") (accepted l t),
      t.errors,
      httpd_main-accept_loop l fuel k port rounds w
          ∙ run
          ∙ accept_loop_fails l rest t (omega (arith, sum, lt)) (ap l.accept at ∙ failed),
      r.created_grow,
      refl,
    )
