-- ===== src/Zebra/Cgi.antt =====
-- `execute_cgi` of ZebraHttpd/httpd.c: what comes before the fork, and the child that runs C code. The
-- pipes between the server and the child are in Cgi/Pipes.
pub mod Pipes
pub mod Fails
use telebra.Base.{
  fits_int, ℕ, zero, suc, ◌+◌, Bool, true, false, Option, none, some, List, [], ◌∷◌, ◌++◌, ◌-◌,
  if◌then◌else◌, Bytes, length, codes, take, replicate, ℤ, pos, negsuc, minus_one, rounds, Outcome,
  returned, fault, running, ◌>>=◌, ◌>>◌, modify,
}
use telebra.Libc.{str_case_eq}
use telebra.Web.State.{Client, Host, H, send}
use telebra.Web.GetLine.{get_line}
use telebra.Web.Pages.{bad_request, cannot_execute}
use telebra.Web.File.{fresh_buf, skip_headers}
use telebra.Web.Cgi.{get, post, post_headers}

-- Which of the calls `pipe`, `pipe` and `fork` fails, if one does.
pub data Spawn : Type 0 where
  output_pipe_fails input_pipe_fails fork_fails forks : Spawn

-- The end of a handler before or after the fork: it is done, or the server goes on with the pipes of
-- a child, for this method and content length.
pub data Next : Type 0 where
  done : Next
  relays : (content_length : ℤ) → Next

-- Behind the headers.
unfoldable pub start_child : Spawn → ℤ → H Next
start_child output_pipe_fails len c = returned done (cannot_execute c)
start_child input_pipe_fails len c = returned done (cannot_execute c)
start_child fork_fails len c = returned done (cannot_execute c)
start_child forks len c = returned (relays len) c

unfoldable pub respond : Spawn → ℤ → H Next
respond spawn len = do modify (send (codes "HTTP/1.0 200 OK\r\n")); start_child spawn len

unfoldable pub execute_cgi : Host → Spawn → Bytes → H Next
execute_cgi host spawn method c =
    if str_case_eq method get
    then (do skip_headers host.stack_buf; respond spawn minus_one) c
    else if str_case_eq method post
    then elim (post_headers (length c.input + 2) minus_one
        (get_line c.input (fresh_buf host.stack_buf) 1024)) [
          | none ↦ running c
          | some (negsuc zero, g) ↦
              returned done (bad_request host.stack_buf (record c { input = g.rest }))
          | some (len, g) ↦
              let rest = respond spawn len (record c { input = g.rest }) in
              if fits_int len then rest else fault (record c { input = g.rest })
        ]
    else respond spawn minus_one c

-- What `processMotorControl` prints: the content length and the content.
pub record Print : Type 0 where
  pub given_length : ℤ
  pub given_content : Bytes

-- `postContent` of the child for a POST: one `read` of the input pipe, which returns `chunk`, and
-- zeros behind it, one at least.
unfoldable pub read_content : ℕ → (chunk : Bytes) → Bytes
read_content len chunk = take len chunk ++ replicate (len + 1 - length (take len chunk)) 0

-- The child for a path that ends in ".c". A GET has an array of no bytes, which is printed all the
-- same for motor_control.c; a negative length other than -1 makes no array.
unfoldable pub run_c : Bytes → Bytes → ℤ → (chunk : Bytes) → Outcome (List Print) (Unit {0})
run_c path method (negsuc n) chunk = fault []
run_c path method (pos n) chunk =
    if str_case_eq path (codes "htdocs/motor_control.c")
    then (if str_case_eq method post
        then returned tt
            (record { given_length = pos n; given_content = read_content n chunk } ∷ [])
        else fault [])
    else returned tt []
