-- ===== src/Zebra/Request/Same.antt =====
-- The two web servers answer the same but for scripts.
use telebra.Base.{
  ℕ, ◌≡◌, refl, sym, ap, ◌∙◌, inl, inr, Bool, true, false, not, ◌&&◌, ◌||◌, Bool-cases,
  Option-cases, Option, none, some, [], ◌++◌, arith, if◌then◌else◌, Bytes, codes, Outcome, returned,
  blocked, fault, running, exited, ◌>>=◌, modify, >>=-returned,
}
use telebra.Libc.{str_case_eq}
use telebra.Web.State.{File, ending, endless, Client, Host, H}
use telebra.Web.GetLine.{Got, get_line}
use telebra.Web.Pages.{send_texts, not_found, unimplemented}
use telebra.Web.File.{send_resource, send_file, skip_headers, serve_opened}
use telebra.Web.Cgi.{get, post, ends_in_c}
use telebra.Web.Request.{
  RequestLine, request_line, split_query, path_of, is_dir, is_executable, refuse, close,
}
use telebra.Web.Cgi.Headers.{length-str_case_eq}
use telebra.Zebra.{cat, headers, serve_file}
use telebra.Zebra.Cgi.{Spawn, Next, done}
use telebra.Zebra.Request.{answer, find_path, finish, has_query, accept_request}

-- Whether a path is run as a script, or as C code.
abbrev pub runs_path : Host → Bytes → Bool → Bool
runs_path host path cgi =
    if ends_in_c path
    then cgi || is_executable host.stack_st_mode
    else elim (host.stat path) [ none ↦ false | some mode ↦ cgi || is_executable mode ]

-- Whether a request is answered by a script, or by C code.
abbrev pub runs_script : Host → RequestLine → Bool
runs_script host r =
    if str_case_eq r.method post
    then runs_path host (path_of r.url) true
    else if str_case_eq r.method get
    then runs_path host (path_of (split_query r.url).0) (has_query (split_query r.url).1)
    else false

-- A call, and then `done`.
abbrev pub then_done : H (Unit {0}) → H Next
then_done m = m >>= λ _. returned done

headers-same : (c : Client) → headers c ≡ telebra.Web.Pages.headers c
unfolding headers telebra.Web.Pages.headers send_texts
headers-same c = refl

opened-same :
    (host : Host) (file : File) (c : Client)
    → (skip_headers host.stack_buf >>= λ _ d. cat host.patience file (headers d)) c
      ≡ (skip_headers host.stack_buf >>= λ _. serve_opened host.patience (some file)) c
unfolding cat serve_opened send_resource send_file headers telebra.Web.Pages.headers send_texts
opened-same host (ending file) c = refl
opened-same host (endless reads) c = refl

serve_file-same :
    (host : Host) (name : Bytes) (c : Client)
    → serve_file host name c ≡ telebra.Web.File.serve_file host name c
unfolding serve_file telebra.Web.File.serve_file serve_opened cat send_resource send_file headers
    telebra.Web.Pages.headers send_texts
serve_file-same host name c = elim (Option-cases (host.fopen name)) [
  | inl e ↦ rw e refl
  | inr (file, e) ↦ rw e (opened-same host file c)
]

bind-same :
    {A B : Type 0} (m n : H A) (f : A → H B) (c : Client) → m c ≡ n c → (m >>= f) c ≡ (n >>= f) c
bind-same m n f c e = rw (e, ◌>>=◌) refl

answer-same :
    (host : Host) (spawn : Spawn) (path method : Bytes) (query : Option Bytes) (cgi : Bool)
    (mode : ℕ) (c : Client)
    → (cgi || is_executable mode) ≡ false
    → answer host spawn path method cgi mode c
      ≡ then_done (telebra.Web.Request.answer host path method query cgi mode) c
unfolding answer telebra.Web.Request.answer
answer-same host spawn path method query true mode c e = cc
answer-same host spawn path method query false mode c e =
    let target = if is_dir mode then path ++ codes "/index.html" else path in
    rw e (
      bind-same (serve_file host target) (telebra.Web.File.serve_file host target)
        (λ _. returned done) c (serve_file-same host target c))

find_path-same :
    (host : Host) (spawn : Spawn) (g : Got) (path method : Bytes) (query : Option Bytes)
    (cgi : Bool) (c : Client)
    → runs_path host path cgi ≡ false
    → find_path host spawn g path method cgi c
      ≡ then_done (telebra.Web.Request.find_path host g path method query cgi) c
unfolding find_path telebra.Web.Request.find_path
find_path-same host spawn g path method query cgi c e = elim (Bool-cases (ends_in_c path)) [
  | inl code ↦
      rw code (answer-same host spawn path method query cgi host.stack_st_mode c (rw code at e))
  | inr other ↦ elim (Option-cases (host.stat path)) [
    | inl gone ↦ rw (other, gone) refl
    | inr (mode, there) ↦
        rw (other, there)
          (answer-same host spawn path method query cgi mode c (rw (other, there) at e))
  ]
]

closed-outcome :
    (o : Outcome Client (Unit {0})) (c : Client)
    → (then_done (λ s. o) >>= finish) c ≡ then_done ((λ s. o) >>= λ _. modify close) c
closed-outcome (returned a s) c = refl
closed-outcome (blocked s) c = refl
closed-outcome (fault s) c = refl
closed-outcome (running s) c = refl
closed-outcome (exited s) c = refl

finish-same :
    (z : H Next) (m : H (Unit {0})) (c : Client)
    → z c ≡ then_done m c
    → (z >>= finish) c ≡ then_done (m >>= λ _. modify close) c
finish-same z m c e = bind-same z (then_done m) finish c e ∙ closed-outcome (m c) c

route-same :
    (host : Host) (spawn : Spawn) (g : Got) (r : RequestLine) (c : Client)
    → str_case_eq r.method get ≡ true
    → str_case_eq r.method post ≡ false
    → runs_script host r ≡ false
    → (find_path host spawn g
            (path_of (split_query r.url).0)
            r.method
            (has_query (split_query r.url).1)
          >>= finish)
        c
      ≡ then_done (telebra.Web.Request.route host g r) c
unfolding telebra.Web.Request.route
route-same host spawn g r c a p e =
    let front = path_of (split_query r.url).0 in
    let runs : runs_path host front (has_query (split_query r.url).1) ≡ false = rw (p, a) at e in
    elim (Option-cases (split_query r.url).1) [
      | inl n ↦
          rw (p, n)
            (finish-same (find_path host spawn g front r.method false)
              (telebra.Web.Request.find_path host g front r.method (some []) false) c
              (find_path-same host spawn g front r.method (some []) false c
                (sym (ap (λ q. runs_path host front (has_query q)) n) ∙ runs)))
      | inr (q, n) ↦
          rw (p, n)
            (finish-same (find_path host spawn g front r.method true)
              (telebra.Web.Request.find_path host g front r.method (some q) true) c
              (find_path-same host spawn g front r.method (some q) true c
                (sym (ap (λ x. runs_path host front (has_query x)) n) ∙ runs)))
    ]

route-post-same :
    (host : Host) (spawn : Spawn) (g : Got) (r : RequestLine) (c : Client)
    → str_case_eq r.method post ≡ true
    → runs_script host r ≡ false
    → (find_path host spawn g (path_of r.url) r.method true >>= finish) c
      ≡ then_done (telebra.Web.Request.route host g r) c
unfolding telebra.Web.Request.route
route-post-same host spawn g r c p e = rw p (
    finish-same (find_path host spawn g (path_of r.url) r.method true)
      (telebra.Web.Request.find_path host g (path_of r.url) r.method none true) c
      (find_path-same host spawn g (path_of r.url) r.method none true c (rw p at e)))

if_self : (b : Bool) → (if b then true else false) ≡ b
if_self true = refl
if_self false = refl

get_or_post : (m : Bytes) → str_case_eq m get ≡ true → str_case_eq m post ≡ false
get_or_post m a = elim (Bool-cases (str_case_eq m post)) [
  | inl b ↦ absurd (omega (arith, length-str_case_eq m get a, length-str_case_eq m post b))
  | inr b ↦ b
]

accept_request-known :
    (host : Host) (c : Client)
    → let g = get_line c.input host.stack_buf 1024 in
      (not (str_case_eq (request_line g.buf).method get)
          && not (str_case_eq (request_line g.buf).method post))
        ≡ false
      → telebra.Web.Request.accept_request host c
        ≡ telebra.Web.Request.route host g (request_line g.buf) (record c { input = g.rest })
unfolding telebra.Web.Request.accept_request
accept_request-known host c e = rw e refl

-- The robot's server, for a method that it knows.
accept_request-route :
    (host : Host) (c : Client)
    → let g = get_line c.input host.stack_buf 1024 in
      (not (str_case_eq (request_line g.buf).method get)
          && not (str_case_eq (request_line g.buf).method post))
        ≡ false
      → then_done (telebra.Web.Request.accept_request host) c
        ≡ then_done
            (telebra.Web.Request.route host g (request_line g.buf))
            (record c { input = g.rest })
accept_request-route host c e =
    let g = get_line c.input host.stack_buf 1024 in
    let d : Client = record c { input = g.rest } in
    bind-same (telebra.Web.Request.accept_request host)
      (λ _. telebra.Web.Request.route host g (request_line g.buf) d) (λ _. returned done) c
      (accept_request-known host c e)

accept_request-unimplemented :
    (host : Host) (c : Client)
    → let g = get_line c.input host.stack_buf 1024 in
      str_case_eq (request_line g.buf).method get ≡ false
      → str_case_eq (request_line g.buf).method post ≡ false
      → telebra.Web.Request.accept_request host c
        ≡ returned tt (unimplemented (record c { input = g.rest }))
unfolding telebra.Web.Request.accept_request
accept_request-unimplemented host c a b = rw (a, b) refl

-- The stand-alone server does exactly what the robot's server does on every request that neither
-- answers by a script or by C code: any one with another method than GET and POST; one of these for a
-- path that does not end in ".c" and does not exist; and a GET without a query for a path that no one
-- may execute, which for one that ends in ".c" is what the uninitialised `st` says.
pub accept_request-same :
    (host : Host) (spawn : Spawn) (c : Client)
    → runs_script host (request_line (get_line c.input host.stack_buf 1024).buf) ≡ false
    → accept_request host spawn c ≡ then_done (telebra.Web.Request.accept_request host) c
unfolding accept_request
accept_request-same host spawn c e =
    let g = get_line c.input host.stack_buf 1024 in
    let r = request_line g.buf in
    let d : Client = record c { input = g.rest } in
    elim (Bool-cases (str_case_eq r.method get)) [
      | inl a ↦
          let b = get_or_post r.method a in
          rw (a, b, if_self (has_query (split_query r.url).1)) (route-same host spawn g r d a b e)
          ∙ sym (accept_request-route host c (rw a refl))
      | inr a ↦ elim (Bool-cases (str_case_eq r.method post)) [
        | inl b ↦
            rw (a, b) (route-post-same host spawn g r d b e)
            ∙ sym (accept_request-route host c (rw (a, b) refl))
        | inr b ↦
            rw (a, b) refl
            ∙ sym (
                >>=-returned (telebra.Web.Request.accept_request host) (λ _. returned done)
                  (accept_request-unimplemented host c a b))
      ]
    ]
