-- ===== src/Web/Startup/Tests.antt =====
-- The theorems on `httpdMain` at a concrete socket library.
use telebra.Base.{
  ℕ, suc, ◌≡◌, refl, inl, ◌==◌, if◌then◌else◌, Bytes, List, [], ◌∷◌, ◌++◌, codes, arith, ltb, pos,
  minus_one, running, exited,
}
use telebra.Web.Accept.{Server, Run, AnyTime}
use telebra.Web.Startup.{Sockets, Listener, httpd_main}
use telebra.Web.Startup.Listening.{Works, ints, httpd_main-serves, httpd_main_accept_error}

-- `bind` works in its third call, and no thread can be created in the second round.
abbrev sockets : Sockets
sockets = record {
  htons = λ p. p;
  ntohs = λ p. p;
  socket = pos 3;
  bind = λ call port. if ltb call 2 then minus_one else pos 0;
  getsockname = pos 0;
  assigned = 50000;
  listen = pos 0;
  accept = λ i. pos (suc (suc (suc (suc i))));
  create = λ i. if i == 1 then pos 11 else pos 0;
}

-- The same, with an `accept` that fails in the third round.
abbrev broken_sockets : Sockets
broken_sockets = record sockets { accept = λ i. if ltb i 2 then pos (suc (suc i)) else minus_one }

sockets-Works : Works sockets 10 2 43742
sockets-Works = record {
  made = refl;
  fueled = omega arith;
  retries = λ j lt. ground (arith, lt);
  binds = refl;
  names = inl refl;
  listens = refl;
}

broken_sockets-Works : Works broken_sockets 10 2 43742
broken_sockets-Works = record {
  made = refl;
  fueled = omega arith;
  retries = λ j lt. ground (arith, lt);
  binds = refl;
  names = inl refl;
  listens = refl;
}

httpd_main-serves_example :
    (s : Listener) × (httpd_main sockets 10 3 43742 ≡ running s)
    × (s.binds ≡ 3)
    × (s.port ≡ 43742)
    × (s.created ≡ pos 4 ∷ pos 6 ∷ [])
    × ((ns : List ℕ) × (v : Server) × (s.created ≡ ints ns) × Run AnyTime ns v)
httpd_main-serves_example =
    httpd_main-serves sockets 10 2 43742 3 sockets-Works (λ j lt. (suc (suc (suc (suc j))), refl))

httpd_main_accept_error_example :
    (s : Listener) × (lines : List Bytes) × (httpd_main broken_sockets 10 9 43742 ≡ exited s)
    × (s.created ≡ pos 2 ∷ [])
    × (s.errors ≡ lines ++ codes "accept" ∷ [])
httpd_main_accept_error_example =
    httpd_main_accept_error broken_sockets 10 2 43742 9 2 broken_sockets-Works
      (λ j lt. ground (arith, lt)) refl (omega arith)
