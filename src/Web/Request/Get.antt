-- ===== src/Web/Request/Get.antt =====
-- A GET request without a query, as `accept_request` answers it.
use telebra.Base.{
  ℕ, ◌+◌, ◌≤◌, ◌<◌, ◌≡◌, ◌≢◌, refl, ap, ◌∙◌, Bool, false, Option, none, some, [], ◌∷◌, ◌++◌,
  append_assoc, arith, if◌then◌else◌, Bytes, length, drop, codes, All, returned, ◌>>◌, modify,
}
use telebra.Libc.{str_case_eq, is_space}
use telebra.Web.State.{Client, Host, H}
use telebra.Web.GetLine.{Got, get_line}
use telebra.Web.GetLine.Headers.{
  Terminator, terminator, Ends, IsText, get_line_text, discard_headers_total,
}
use telebra.Web.Pages.{not_found}
use telebra.Web.File.{serve_file}
use telebra.Web.Cgi.{get, ends_in_c}
use telebra.Web.Request.{
  request_line, path_of, is_dir, is_executable, answer, refuse, find_path, close, route,
  accept_request,
}
use telebra.Web.Request.Words.{IsWord, request_line_words, split_query-none}

-- The first line: the URL `u`, and the version `v`.
abbrev pub get_request : Bytes → Bytes → Bytes
get_request u v = codes "GET " ++ (u ++ b' ' ∷ v)

request_line-get_request :
    (u v stale : Bytes)
    → IsWord u
    → u ≢ []
    → length u < 254
    → request_line (get_request u v ++ stale) ≡ record { method = get; url = u }
request_line-get_request u v stale h ne lt =
    ap (λ b. request_line (codes "GET " ++ b)) (append_assoc u (b' ' ∷ v) stale)
    ∙ request_line_words get u [] (v ++ stale) b' ' b' '
        (unfold is_space in ((refl, omega arith), ((refl, omega arith), ((refl, omega arith), tt))))
        h ne (unfold is_space in (refl, tt)) (unfold is_space in refl) (omega arith) lt

-- What `accept_request` does behind the first line of such a request.
abbrev pub after_line : Host → Bytes → Bytes → Bytes → H (Unit {0})
after_line host u v after = do
  find_path host
      (record {
        numchars = length (get_request u v) + 1;
        buf = get_request u v ++ b'\n' ∷ 0 ∷ drop (length (get_request u v) + 2) host.stack_buf;
        rest = after;
      })
      (path_of u) get (some []) false
  modify close

route-get :
    (host : Host) (g : Got) (u : Bytes) (c : Client)
    → All (λ x. x ≢ b'?') u
    → route host g (record { method = get; url = u }) c
      ≡ (do find_path host g (path_of u) get (some []) false; modify close) c
unfolding route str_case_eq
route-get host g u c h =
    let e = split_query-none u h in rw (ap (λ p. p.1) e) (rw (ap (λ p. p.0) e) refl)

accept_request-get :
    (host : Host) (c : Client) (g : Got) (u : Bytes)
    → get_line c.input host.stack_buf 1024 ≡ g
    → request_line g.buf ≡ record { method = get; url = u }
    → accept_request host c
      ≡ route host g (record { method = get; url = u }) (record c { input = g.rest })
unfolding accept_request str_case_eq
accept_request-get host c g u e f = rw (e, f) refl

pub accept_request-after_line :
    (host : Host) (c : Client) (u v after : Bytes) (s : Terminator)
    → c.input ≡ get_request u v ++ (terminator s ++ after)
    → IsText (get_request u v)
    → Ends s after
    → length (get_request u v) + 2 ≤ 1024
    → IsWord u
    → u ≢ []
    → length u < 254
    → All (λ x. x ≢ b'?') u
    → accept_request host c ≡ after_line host u v after (record c { input = after })
accept_request-after_line host c u v after s e text end fits word ne short q =
    let line = get_request u v in
    let stale = b'\n' ∷ 0 ∷ drop (length line + 2) host.stack_buf in
    let g : Got = record { numchars = length line + 1; buf = line ++ stale; rest = after } in
    accept_request-get host c g u
      (ap (λ i. get_line i host.stack_buf 1024) e
        ∙ get_line_text line after host.stack_buf s 1024 text end fits)
      (request_line-get_request u v stale word ne short)
    ∙ route-get host g u (record c { input = after }) q

pub refuse_total :
    (g : Got) (c : Client)
    → (left : Bytes) × (refuse g c ≡ returned tt (not_found (record c { input = left })))
unfolding refuse
refuse_total g c =
    let (h, run, over, short) = discard_headers_total (length g.rest + 2) g (omega arith) in
    (h.rest, rw (run, refuse) refl)

pub find_path-refuse :
    (host : Host) (g : Got) (path method : Bytes) (query : Option Bytes) (cgi : Bool) (c : Client)
    → ends_in_c path ≡ false
    → host.stat path ≡ none
    → find_path host g path method query cgi c ≡ refuse g c
unfolding find_path
find_path-refuse host g path method query cgi c e n = rw (e, n) refl

pub find_path-serve_file :
    (host : Host) (g : Got) (path method target : Bytes) (query : Option Bytes) (mode : ℕ)
    (c : Client)
    → ends_in_c path ≡ false
    → host.stat path ≡ some mode
    → is_executable mode ≡ false
    → (if is_dir mode then path ++ codes "/index.html" else path) ≡ target
    → find_path host g path method query false c ≡ serve_file host target c
unfolding find_path answer
find_path-serve_file host g path method target query mode c e n x t = rw (e, n, x, t) refl
