-- ===== src/Zebra.antt =====
-- ZebraHttpd/httpd.c, the stand-alone web server. The parts that it has word for word in common with
-- MotorDriver/httpd.c and webpages.c are those of telebra.Web; here are those that differ.
pub mod Cgi
pub mod Request
pub mod Script
pub mod Startup
mod Tests
use telebra.Base.{
  ℕ, ◌+◌, Option, none, some, List, [], ◌∷◌, ◌++◌, Bytes, length, codes, Outcome, returned, fault,
  ◌>>=◌, ◌>>◌,
}
use telebra.Web.State.{File, ending, endless, Client, Host, H, send}
use telebra.Web.Pages.{server_string, not_found}
use telebra.Web.File.{send_endless, fgets, send_chunks, skip_headers}

-- `cat`; the loop over a file without end is cut off after `patience` rounds.
unfoldable pub cat : (patience : ℕ) → File → H (Unit {0})
cat patience (ending resource) = send_chunks (length resource + 2) (fgets 1023 resource)
cat patience (endless reads) = send_endless patience reads

-- `headers`, which copies two of its texts with `strcpy`.
unfoldable pub headers : Client → Client
headers c = send (codes "\r\n") (
    send (codes "Content-Type: text/html\r\n")
      (send server_string (send (codes "HTTP/1.0 200 OK\r\n") c)))

unfoldable pub serve_file : Host → Bytes → H (Unit {0})
serve_file host filename = do
  skip_headers host.stack_buf
  (elim (host.fopen filename) [
    | none ↦ λ c. fault (not_found c)
    | some resource ↦ λ c. cat host.patience resource (headers c)
  ])
