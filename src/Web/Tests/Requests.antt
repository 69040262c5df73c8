-- ===== src/Web/Tests/Requests.antt =====
-- The theorems on whole requests at concrete requests.
use telebra.Base.{
  ◌≡◌, refl, true, false, none, some, [], ◌∷◌, ◌++◌, arith, Bytes, codes, returned, fault, exited,
}
use telebra.Libc.{is_space, str_case_eq, atoi, signed_value, skip_spaces, digits_value}
use telebra.Qik.State.{Qik, initial}
use telebra.Qik.Queue.Fifo.{Queues}
use telebra.Qik.Commands.Protocol.{decode}
use telebra.Qik.Commands.Laws.{frame, Apart}
use telebra.Qik.Motor.Drive.{left}
use telebra.Web.State.{Client, Host}
use telebra.Web.GetLine.Headers.{lf, crlf}
use telebra.Web.Pages.{headers_texts, not_found_texts, unimplemented_texts}
use telebra.Web.Cgi.{ends_in_c, execute_cgi}
use telebra.Web.Cgi.Post.{ok_line}
use telebra.Web.Cgi.Script.{execute_cgi_script}
use telebra.Web.Request.{accept_request, path_of}
use telebra.Web.Request.Drive.{accept_request-drives}
use telebra.Web.Request.Answers.{accept_request_file, accept_request_unopened}
use telebra.Web.Request.Other.{accept_request_other}
use telebra.Web.Tests.{
  word, initial-Queues, text, header, page, client, length_header, turn_left, not_query, get_hi,
  file_line, hi-IsWord, get_page,
}

accept_request-drives_example :
    (q : Qik) × (a : Bytes) × (b : Bytes) × (accept_request page (client turn_left)
      ≡ returned tt (record { input = []; output = ok_line ∷ []; closed = true; qik = q }))
    × (decode 9 a ≡ some (record { motor = 0; forward = true; speed = 255 }))
    × (decode 9 b ≡ some (record { motor = 1; forward = false; speed = 255 }))
    × Queues q (frame a false ∷ frame b false ∷ [])
    × (q.mutex ≡ false)
    × Apart initial q
accept_request-drives_example =
    accept_request-drives page (client turn_left) (codes "HTTP/1.1") crlf length_header crlf [] crlf
      left true [] [] refl
      (
        header b'P' (codes "OST /motor_control.c HTTP/1.1") refl refl (omega arith),
        tt,
        (header b'C' (codes "ontent-Length: 10") refl refl (omega arith), tt, tt),
      )
      tt (unfold str_case_eq atoi signed_value skip_spaces is_space digits_value in refl) refl
      initial-Queues refl (omega arith)

accept_request_file_example :
    accept_request page (client get_page)
    ≡ returned tt (record {
      input = [];
      output = headers_texts ++ codes "<P>\n" ∷ codes "Hi\n" ∷ [];
      closed = true;
      qik = initial;
    })
accept_request_file_example =
    accept_request_file page (client get_page) (codes "/hi.txt") (codes "HTTP/1.1")
      (codes "htdocs/hi.txt") [] 0x81a4 lf lf ((codes "Host: a", crlf) ∷ [])
      (codes "<P>" ∷ codes "Hi" ∷ []) [] refl (text get_hi refl) tt (omega arith) hi-IsWord
      (λ e. cc) (omega arith) (not_query (codes "/hi.txt") refl) (unfold path_of ends_in_c in refl)
      refl refl (unfold path_of in refl) refl
      (file_line (codes "<P>") refl (omega arith), (file_line (codes "Hi") refl (omega arith), tt))
      tt (omega arith) (header b'H' (codes "ost: a") refl refl (omega arith), tt, tt) tt

-- A directory without an index.
abbrev bare : Host
bare = record page { stat = λ path. some 0x4000; fopen = λ path. none }

accept_request_unopened_example :
    (d : Client) × (accept_request bare (client get_page) ≡ fault d) × (d.output ≡ not_found_texts)
accept_request_unopened_example =
    accept_request_unopened bare (client get_page) (codes "/hi.txt") (codes "HTTP/1.1")
      (codes "Host: a\r\n\n") (codes "htdocs/hi.txt/index.html") 0x4000 lf refl (text get_hi refl)
      tt (omega arith) hi-IsWord (λ e. cc) (omega arith) (not_query (codes "/hi.txt") refl)
      (unfold path_of ends_in_c in refl) refl refl (unfold path_of in refl) refl

abbrev put_page : Bytes
put_page = codes "PUT / HTTP/1.1\n\n"

accept_request_other_example :
    accept_request page (client put_page)
    ≡ returned tt
        (record { input = b'\n' ∷ []; output = unimplemented_texts; closed = false; qik = initial })
accept_request_other_example =
    accept_request_other page (client put_page) (codes "PUT") (codes "/") (codes "HTTP/1.1")
      (b'\n' ∷ []) lf refl (text (codes "PUT / HTTP/1.1") refl) tt (omega arith)
      (word (codes "PUT") (unfold is_space in refl)) (word (codes "/") (unfold is_space in refl))
      (λ e. cc) (omega arith) (omega arith) (unfold str_case_eq in refl)
      (unfold str_case_eq in refl)

execute_cgi_script_example :
    (left : Bytes) × (execute_cgi page
        (codes "htdocs/a")
        (codes "get")
        (some (codes "x=1"))
        (client [])
      ≡ exited (record { input = left; output = ok_line ∷ []; closed = false; qik = initial }))
execute_cgi_script_example =
    execute_cgi_script page (codes "htdocs/a") (codes "get") (codes "x=1") (client [])
      (unfold ends_in_c in refl) (unfold str_case_eq in refl)
