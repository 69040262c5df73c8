-- ===== src/Web/Startup.antt =====
-- `startup`, `error_die` and `httpdMain` of MotorDriver/httpd.c: the listening socket, and the loop
-- that accepts connections. What the threads do with `client_sock` is in Web/Accept.
pub mod Listening
mod Tests
use telebra.Base.{
  ℕ, zero, suc, ◌+◌, Bool, true, false, not, List, [], ◌∷◌, ◌++◌, Bytes, codes, ◌==◌, ℤ, pos,
  negsuc, minus_one, int_eq, if◌then◌else◌, Outcome, returned, running, exited, ◌>>=◌, ◌>>◌,
}

-- What the calls of the socket library return: `bind` in each call, for an address with this
-- `sin_port`; the `sin_port` that `getsockname` stores; and `accept` and `pthread_create` in each round
-- of the loop.
pub record Sockets : Type 0 where
  pub htons : ℕ → ℕ
  pub ntohs : ℕ → ℕ
  pub socket : ℤ
  pub bind : (call : ℕ) → (sin_port : ℕ) → ℤ
  pub getsockname : ℤ
  pub assigned : ℕ
  pub listen : ℤ
  pub accept : ℕ → ℤ
  pub create : ℕ → ℤ

-- `*port`, the calls of `bind` so far, `client_sock`, the rounds of the loop so far, the values that
-- `client_sock` had when a thread was created, and the names given to `perror`.
pub record Listener : Type 0 where
  pub port : ℕ
  pub binds : ℕ
  pub client_sock : ℤ
  pub accepts : ℕ
  pub created : List ℤ
  pub errors : List Bytes

abbrev pub initial_listener : (port : ℕ) → Listener
initial_listener port = record {
  port = port;
  binds = 0;
  client_sock = minus_one;
  accepts = 0;
  created = [];
  errors = [];
}

-- A test for less than 0.
abbrev pub negative : ℤ → Bool
negative (pos n) = false
negative (negsuc n) = true

abbrev pub perror : Bytes → Listener → Listener
perror sc s = record s { errors = s.errors ++ sc ∷ [] }

unfoldable pub error_die : Bytes → Listener → Outcome Listener (Unit {0})
error_die sc s = exited (perror sc s)

-- `if (failed) { error_die(sc); }`
abbrev pub die_if : Bool → Bytes → Listener → Outcome Listener (Unit {0})
die_if failed sc s = if failed then error_die sc s else returned tt s

module _ (l : Sockets) where
  -- The loop around `bind`, which sleeps for a second after a call that failed.
  unfoldable pub bind_loop : ℕ → Listener → Outcome Listener (Unit {0})
  bind_loop zero s = running s
  bind_loop (suc n) s =
      let after : Listener = record s { binds = s.binds + 1 } in
      let again = bind_loop n after in
      if negative (l.bind s.binds (l.htons s.port)) then again else returned tt after

  unfoldable pub assigned_port : Listener → Outcome Listener (Unit {0})
  assigned_port s =
      if s.port == 0
      then (die_if (int_eq l.getsockname minus_one) (codes "getsockname") >> λ t.
            returned tt (record t { port = l.ntohs l.assigned }))
          s
      else returned tt s

  -- `startup`, with fuel for the loop around `bind`.
  unfoldable pub startup : ℕ → Listener → Outcome Listener ℤ
  startup fuel = do
    die_if (int_eq l.socket minus_one) (codes "socket")
    bind_loop fuel
    assigned_port
    die_if (negative l.listen) (codes "listen")
    returned l.socket

  -- A thread gets the address of `client_sock`; where none can be created the loop goes on.
  abbrev pub create_thread : (round : ℕ) → Listener → Listener
  create_thread i s =
      if int_eq (l.create i) (pos 0)
      then record s { created = s.created ++ s.client_sock ∷ [] }
      else perror (codes "pthread_create") s

  -- The endless loop, cut off after a number of rounds.
  unfoldable pub accept_loop : ℕ → Listener → Outcome Listener (Unit {0})
  accept_loop zero s = running s
  accept_loop (suc n) s =
      let t : Listener = record s { client_sock = l.accept s.accepts; accepts = s.accepts + 1 } in
      (die_if (int_eq (l.accept s.accepts) minus_one) (codes "accept") >> λ u.
      accept_loop n (create_thread s.accepts u))
        t

  unfoldable pub httpd_main : (fuel rounds port : ℕ) → Outcome Listener (Unit {0})
  httpd_main fuel rounds port =
      (startup fuel >>= λ server_sock. accept_loop rounds) (initial_listener port)
