-- ===== src/Zebra/Tests.antt =====
-- The theorems on the stand-alone server at concrete requests.
use telebra.Base.{◌≡◌, refl, false, some, [], ◌∷◌, Bytes, codes, replicate, returned}
use telebra.Libc.{str_case_eq, is_space}
use telebra.Qik.State.{initial}
use telebra.Web.State.{ending, Client, Host}
use telebra.Web.GetLine.{get_line, read_line, line_byte, after_cr}
use telebra.Web.Pages.{cannot_execute_texts}
use telebra.Web.File.{until_nul}
use telebra.Web.Cgi.{ends_in_c}
use telebra.Web.Cgi.Post.{ok_line}
use telebra.Web.Request.{request_line, copy_word, skip_space, split_query, path_of}
use telebra.Zebra.Cgi.{fork_fails, forks, done, execute_cgi}
use telebra.Zebra.Cgi.Fails.{execute_cgi_fails}
use telebra.Zebra.Request.{accept_request}
use telebra.Zebra.Request.Same.{then_done, accept_request-same}

abbrev page : Host
page = record {
  stat = λ path. some 0x81a4;
  fopen = λ path. some (ending (codes "<P>\nHi\n"));
  patience = 0;
  stack_buf = replicate 1024 7;
  stack_st_mode = 0x81a4;
  stack_post = replicate 1024 7;
}

abbrev client : Client
client = record {
  input = codes "GET /hi.txt HTTP/1.1\n\n";
  output = [];
  closed = false;
  qik = initial;
}

accept_request-same_example :
    accept_request page forks client ≡ then_done (telebra.Web.Request.accept_request page) client
accept_request-same_example = accept_request-same page forks client (
    unfold get_line request_line read_line line_byte after_cr copy_word skip_space until_nul
      is_space str_case_eq split_query path_of ends_in_c in
    refl)

execute_cgi_fails_example :
    (rest : Bytes) × (execute_cgi page fork_fails (codes "GET") client
      ≡ returned done (record client { input = rest; output = ok_line ∷ cannot_execute_texts }))
execute_cgi_fails_example =
    execute_cgi_fails page fork_fails (codes "GET") client (unfold str_case_eq in refl) (λ e. cc)
