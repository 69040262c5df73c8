-- ===== src/Web/Cgi/Script.antt =====
-- `execute_cgi` for a path that is no C code.
use telebra.Base.{
  ◌+◌, ◌≡◌, refl, ◌∙◌, true, false, Option, some, [], ◌∷◌, ◌++◌, arith, ltb, if◌then◌else◌, Bytes,
  length, minus_one, returned, fault, exited, >>=-returned, ℤ,
}
use telebra.Libc.{str_case_eq}
use telebra.Web.State.{Client, Host, send}
use telebra.Web.File.{skip_headers}
use telebra.Web.File.Serve.{skip_headers_total}
use telebra.Web.Cgi.{get, ends_in_c, run_script, respond, execute_cgi}
use telebra.Web.Cgi.Headers.{length-str_case_eq}
use telebra.Web.Cgi.Post.{ok_line}

execute_cgi-get :
    (host : Host) (path method : Bytes) (query : Option Bytes) (c d : Client)
    → str_case_eq method get ≡ true
    → skip_headers host.stack_buf c ≡ returned tt d
    → execute_cgi host path method query c ≡ respond host path method query minus_one d
unfolding execute_cgi
execute_cgi-get host path method query c d e run =
    rw e (
      >>=-returned (skip_headers host.stack_buf) (λ _. respond host path method query minus_one)
        run)

respond-run_script :
    (host : Host) (path method : Bytes) (query : Option Bytes) (len : ℤ) (c : Client)
    → ends_in_c path ≡ false
    → respond host path method query len c ≡ run_script method query (send ok_line c)
unfolding respond
respond-run_script host path method query len c e = rw e refl

run_script-get :
    (method query : Bytes) (c : Client)
    → str_case_eq method get ≡ true
    → run_script method (some query) c ≡ (if ltb 255 (length query + 14) then fault c else exited c)
unfolding run_script
run_script-get method query c e =
    let short = length-str_case_eq method get e in rw e (ground (arith, short))

-- A GET for a path that does not end in ".c" discards the headers and sends the status line; then a
-- query of 242 bytes or more overflows `query_env`, and for any shorter one the process is gone: the
-- server itself, which does not fork, runs the script in its own place or exits. The driver is asked
-- for nothing, and the connection is not closed.
pub execute_cgi_script :
    (host : Host) (path method query : Bytes) (c : Client)
    → ends_in_c path ≡ false
    → str_case_eq method get ≡ true
    → (left : Bytes) × (let d : Client = record c {
      input = left;
      output = c.output ++ ok_line ∷ [];
    } in
        execute_cgi host path method (some query) c
        ≡ (if ltb 255 (length query + 14) then fault d else exited d))
execute_cgi_script host path method query c e m =
    let (left, run) = skip_headers_total host.stack_buf c in
    let d : Client = record c { input = left } in
    (
      left,
      execute_cgi-get host path method (some query) c d m run
          ∙ respond-run_script host path method (some query) minus_one d e
          ∙ run_script-get method query (send ok_line d) m,
    )
