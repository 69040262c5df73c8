-- ===== src/Zebra/Cgi/Fails.antt =====
-- A script for which `pipe` or `fork` fails.
use telebra.Base.{
  ◌≡◌, ◌≢◌, refl, ap, ◌∙◌, true, [], ◌∷◌, ◌++◌, append_assoc, Bytes, minus_one, ℤ, returned,
  >>=-returned,
}
use telebra.Libc.{str_case_eq}
use telebra.Web.State.{Client, Host, send}
use telebra.Web.Pages.{cannot_execute_texts, cannot_execute, send_texts}
use telebra.Web.Pages.Sizes.{output-send_texts}
use telebra.Web.File.{skip_headers}
use telebra.Web.File.Serve.{skip_headers_total}
use telebra.Web.Cgi.{get}
use telebra.Web.Cgi.Post.{ok_line}
use telebra.Zebra.Cgi.{
  Spawn, output_pipe_fails, input_pipe_fails, fork_fails, forks, done, start_child, respond,
  execute_cgi,
}

start_child-cannot_execute :
    (spawn : Spawn) (len : ℤ) (c : Client)
    → spawn ≢ forks
    → start_child spawn len c ≡ returned done (cannot_execute c)
unfolding start_child
start_child-cannot_execute output_pipe_fails len c ne = refl
start_child-cannot_execute input_pipe_fails len c ne = refl
start_child-cannot_execute fork_fails len c ne = refl
start_child-cannot_execute forks len c ne = absurd (ne refl)

output-cannot_execute :
    (c : Client)
    → cannot_execute (send ok_line c)
      ≡ record c { output = c.output ++ ok_line ∷ cannot_execute_texts }
unfolding cannot_execute send_texts
output-cannot_execute c =
    ap (λ o. record c { output = o })
      (output-send_texts cannot_execute_texts (send ok_line c)
        ∙ append_assoc c.output (ok_line ∷ []) cannot_execute_texts)

execute_cgi-respond :
    (host : Host) (spawn : Spawn) (method : Bytes) (c d : Client)
    → str_case_eq method get ≡ true
    → skip_headers host.stack_buf c ≡ returned tt d
    → execute_cgi host spawn method c ≡ respond spawn minus_one d
unfolding execute_cgi
execute_cgi-respond host spawn method c d e run =
    rw e (>>=-returned (skip_headers host.stack_buf) (λ _. respond spawn minus_one) run)

-- A GET of a script for which one of the two pipes or the child cannot be made: the client gets the
-- line 200 OK, and only behind it the whole 500 page with a status line of its own.
pub execute_cgi_fails :
    (host : Host) (spawn : Spawn) (method : Bytes) (c : Client)
    → str_case_eq method get ≡ true
    → spawn ≢ forks
    → (rest : Bytes) × (execute_cgi host spawn method c
        ≡ returned done
            (record c { input = rest; output = c.output ++ ok_line ∷ cannot_execute_texts }))
unfolding respond
execute_cgi_fails host spawn method c e ne =
    let (rest, run) = skip_headers_total host.stack_buf c in
    let d : Client = record c { input = rest } in
    (
      rest,
      execute_cgi-respond host spawn method c d e run
          ∙ start_child-cannot_execute spawn minus_one (send ok_line d) ne
          ∙ ap (returned done) (output-cannot_execute d),
    )
