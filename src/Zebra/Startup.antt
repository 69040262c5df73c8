-- ===== src/Zebra/Startup.antt =====
-- `startup` and `main` of ZebraHttpd/httpd.c. The loop around `bind`, the one around `accept` and
-- `error_die` are word for word those of MotorDriver/httpd.c.
use telebra.Base.{
  ℕ, ◌<◌, ◌≡◌, refl, ◌∙◌, codes, ℤ, pos, minus_one, int_eq, Outcome, returned, running, ◌>>=◌, ◌>>◌,
}
use telebra.Web.Startup.{
  Sockets, Listener, initial_listener, negative, die_if, bind_loop, assigned_port, accept_loop,
  httpd_main, startup as robot_startup,
}
use telebra.Web.Startup.Listening.{Works, served, httpd_main-serves}

module _ (l : Sockets) where
  -- `startup`, with fuel for the loop around `bind`.
  unfoldable pub startup : ℕ → Listener → Outcome Listener ℤ
  startup fuel = do
    die_if (int_eq l.socket minus_one) (codes "socket")
    bind_loop l fuel
    assigned_port l
    die_if (negative l.listen) (codes "listen")
    returned l.socket

  -- `main`, with the port 43742 and its endless loop cut off after a number of rounds.
  unfoldable pub main : (fuel rounds : ℕ) → Outcome Listener (Unit {0})
  main fuel rounds = (startup fuel >>= λ server_sock. accept_loop l rounds) (initial_listener 43742)

  main-httpd_main : (fuel rounds : ℕ) → main fuel rounds ≡ httpd_main l fuel rounds 43742
  unfolding main startup httpd_main robot_startup
  main-httpd_main fuel rounds = refl

  -- Where the listening socket can be set up and `accept` works in the rounds so far, exactly the
  -- connections for which a thread could be created were given to one, in order.
  main-serves :
      (fuel k rounds : ℕ)
      → Works l fuel k 43742
      → ((j : ℕ) → j < rounds → (fd : ℕ) × (l.accept j ≡ pos fd))
      → (s : Listener) × (main fuel rounds ≡ running s) × (s.created ≡ served l 0 rounds)
  main-serves fuel k rounds w ok =
      let (s, run, binds, port, created, shape) = httpd_main-serves l fuel k 43742 rounds w ok in
      (s, main-httpd_main fuel rounds ∙ run, created)
