-- ===== src/Web/Request/Kept/Cgi.antt =====
-- `execute_cgi`: it reaches the driver through `processMotorControl` only.
use telebra.Base.{
  fits_int, if◌then◌else◌, ℕ, zero, suc, ◌+◌, Option, none, some, [], ◌∷◌, ltb, Bytes, length, set,
  replicate, codes, ℤ, pos, negsuc, minus_one, rounds, Outcome, returned, blocked, running, fault,
  exited, Ensures, Ensures-if, Any, Keeps, Keeps-if, Keeps-bind, Keeps-then, Keeps-returned,
  Keeps-modify,
}
use telebra.Libc.{str_case_eq}
use telebra.Qik.State.{Qik}
use telebra.Qik.Motor.{process_motor_control}
use telebra.Web.State.{Client, Host, H, send, on_qik}
use telebra.Web.GetLine.{Got}
use telebra.Web.Pages.{bad_request}
use telebra.Web.GetLine.{get_line}
use telebra.Web.File.{fresh_buf}
use telebra.Web.Cgi.{
  post_headers, get, post, ends_in_c, read_content, post_content, run_c, run_script, respond,
  execute_cgi,
}
use telebra.Web.Request.Kept.Files.{Kept, bad_request-Kept, skip_headers-Keeps}

module _ (P : Qik → Type 0)
    (motor : (content : Bytes) → Keeps P Any (process_motor_control content)) where
  outcome-Ensures :
      (o : Outcome Qik (Unit {0})) (c : Client)
      → Ensures Any P o
      → Ensures Any (Kept P) (on_qik (λ q. o) c)
  outcome-Ensures (returned a q) c p = p
  outcome-Ensures (blocked q) c p = p
  outcome-Ensures (fault q) c p = p
  outcome-Ensures (running q) c p = p
  outcome-Ensures (exited q) c p = p

  byte-Ensures :
      (m : Bytes → H Bytes) (i : ℕ) (content : Bytes) (c : Client) (input : Bytes)
      → ((d : Bytes) → Keeps (Kept P) Any (m d))
      → Kept P c
      → Ensures Any (Kept P) (elim input [
        | [] ↦ m content c
        | b ∷ bs ↦
            let rest = m (set content i b) (record c { input = bs }) in
            if ltb i 1024 then rest else fault (record c { input = bs })
      ])
  byte-Ensures m i content c [] k p = (k content).at c p
  byte-Ensures m i content c (b ∷ bs) k p =
      Ensures-if Any (Kept P) (ltb i 1024) _ _
        ((k (set content i b)).at (record c { input = bs }) p) p

  read_content-Keeps : (n i : ℕ) (content : Bytes) → Keeps (Kept P) Any (read_content n i content)
  unfolding read_content
  read_content-Keeps zero i content = record { at = λ c p. (tt, p) }
  read_content-Keeps (suc n) i content = record {
    at = λ c p.
        byte-Ensures (read_content n (i + 1)) i content c c.input
          (λ d. read_content-Keeps n (i + 1) d) p;
  }

  post_content-Keeps :
      (host : Host) (method : Bytes) (len : ℤ) → Keeps (Kept P) Any (post_content host method len)
  unfolding post_content
  post_content-Keeps host method len =
      Keeps-if (str_case_eq method get) _ _ (Keeps-returned Any host.stack_post tt) (
        Keeps-if (str_case_eq method post) _ _
          (read_content-Keeps (rounds len) 0 (replicate 1024 0))
          (Keeps-returned Any host.stack_post tt))

  run_c-Keeps :
      (host : Host) (path method : Bytes) (len : ℤ)
      → Keeps (Kept P) Any (run_c host path method len)
  unfolding run_c
  run_c-Keeps host path method len =
      Keeps-bind Any Any (post_content host method len) _ (post_content-Keeps host method len)
        (λ content v.
          Keeps-if (str_case_eq path (codes "htdocs/motor_control.c")) _ _
            (record {
              at = λ c p.
                  outcome-Ensures (process_motor_control content c.qik) c
                    ((motor content).at c.qik p);
            })
            (Keeps-returned Any tt tt))

  run_script-Keeps :
      (method : Bytes) (query : Option Bytes) → Keeps (Kept P) Any (run_script method query)
  unfolding run_script
  run_script-Keeps method none = record {
    at = λ c p.
        Ensures-if Any (Kept P) (ltb 255 (length (codes "REQUEST_METHOD=") + length method + 1))
          (fault c) _ p (Ensures-if Any (Kept P) (str_case_eq method get) (fault c) (exited c) p p);
  }
  run_script-Keeps method (some q) = record {
    at = λ c p.
        Ensures-if Any (Kept P) (ltb 255 (length (codes "REQUEST_METHOD=") + length method + 1))
          (fault c) _ p
          (Ensures-if Any (Kept P) (str_case_eq method get) _ (exited c)
            (Ensures-if Any (Kept P) (ltb 255 (length (codes "QUERY_STRING=") + length q + 1))
              (fault c) (exited c) p p)
            p);
  }

  respond-Keeps :
      (host : Host) (path method : Bytes) (query : Option Bytes) (len : ℤ)
      → Keeps (Kept P) Any (respond host path method query len)
  unfolding respond
  respond-Keeps host path method query len =
      Keeps-then Any _ _ (Keeps-modify (send (codes "HTTP/1.0 200 OK\r\n")) (λ c p. p)) (
        Keeps-if (ends_in_c path) _ _ (run_c-Keeps host path method len)
          (run_script-Keeps method query))

  posted-Ensures :
      (host : Host) (path method : Bytes) (query : Option Bytes) (c : Client) (o : Option (ℤ × Got))
      → Kept P c
      → Ensures Any (Kept P) (elim o [
        | none ↦ running c
        | some (negsuc zero, g) ↦
            returned tt (bad_request host.stack_buf (record c { input = g.rest }))
        | some (len, g) ↦
            let rest = respond host path method query len (record c { input = g.rest }) in
            if fits_int len then rest else fault (record c { input = g.rest })
      ])
  posted-Ensures host path method query c none p = p
  posted-Ensures host path method query c (some (negsuc zero, g)) p =
      (tt, bad_request-Kept P host.stack_buf (record c { input = g.rest }) p)
  posted-Ensures host path method query c (some (pos n, g)) p =
      Ensures-if Any (Kept P) (fits_int (pos n)) _ _
        ((respond-Keeps host path method query (pos n)).at (record c { input = g.rest }) p) p
  posted-Ensures host path method query c (some (negsuc (suc n), g)) p =
      Ensures-if Any (Kept P) (fits_int (negsuc (suc n))) _ _
        ((respond-Keeps host path method query (negsuc (suc n))).at (record c { input = g.rest }) p)
        p

  pub execute_cgi-Keeps :
      (host : Host) (path method : Bytes) (query : Option Bytes)
      → Keeps (Kept P) Any (execute_cgi host path method query)
  unfolding execute_cgi
  execute_cgi-Keeps host path method query = record {
    at = λ c p.
        Ensures-if Any (Kept P) (str_case_eq method get) _ _
          ((Keeps-then Any _ _ (skip_headers-Keeps P host.stack_buf)
              (respond-Keeps host path method query minus_one)).at
            c p)
          (Ensures-if Any (Kept P) (str_case_eq method post) _ _
            (posted-Ensures host path method query c
              (post_headers (length c.input + 2) minus_one
                (get_line c.input (fresh_buf host.stack_buf) 1024))
              p)
            ((respond-Keeps host path method query minus_one).at c p));
  }
