-- ===== src/Web/Cgi.antt =====
-- `execute_cgi` of MotorDriver/httpd.c.
pub mod Content
pub mod Headers
pub mod Declared
pub mod Post
pub mod Script
pub mod Ending
use telebra.Base.{
  fits_int, ℕ, zero, suc, ◌+◌, Bool, true, false, ◌&&◌, Option, none, some, [], ◌∷◌, ◌++◌, ltb,
  ◌==◌, if◌then◌else◌, Bytes, length, set, drop, replicate, codes, ℤ, pos, negsuc, rounds,
  minus_one, Outcome, returned, fault, running, exited, ◌>>=◌, ◌>>◌, modify,
}
use telebra.Libc.{c_str, str_case_eq, atoi}
use telebra.Qik.Motor.{process_motor_control}
use telebra.Web.State.{Client, Host, H, send, on_qik}
use telebra.Web.GetLine.{Got, get_line, more_headers}
use telebra.Web.File.{fresh_buf, skip_headers}
use telebra.Web.Pages.{bad_request}

abbrev pub get : Bytes
get = codes "GET"

abbrev pub post : Bytes
post = codes "POST"

-- Whether a header line, cut off at 15 bytes, is the name of the content length.
unfoldable pub is_content_length : Bytes → Bool
is_content_length cut = elim (c_str cut) [
  | none ↦ false
  | some name ↦ str_case_eq name (codes "Content-Length:")
]

-- An `atoi` of a value that does not fit an `int` is undefined behaviour. Such a value stays in the
-- content length from there on, and stands for that.
abbrev pub overwrite : ℤ → ℤ → ℤ
overwrite len value = if fits_int len then value else len

-- The content length after one header line in `cut`.
unfoldable pub header_length : ℤ → Bytes → ℤ
header_length len cut = if is_content_length cut then overwrite len (atoi (drop 16 cut)) else len

-- The loop over the header lines of a POST, for `n` rounds at most.
unfoldable pub post_headers : ℕ → ℤ → Got → Option (ℤ × Got)
post_headers zero len g = none
post_headers (suc n) len g =
    let cut = set g.buf 15 0 in
    let rest = post_headers n (header_length len cut) (get_line g.rest cut 1024) in
    if more_headers g then rest else some (len, g)

-- The loop that reads the content of a POST, from index `i` on, `n` bytes to go. A write past the
-- 1024 bytes of `postContent` is a fault; where `recv` fails the byte stays as it was.
unfoldable pub read_content : (n i : ℕ) → Bytes → H Bytes
read_content zero i content c = returned content c
read_content (suc n) i content c = elim c.input [
  | [] ↦ read_content n (i + 1) content c
  | b ∷ bs ↦
      let rest = read_content n (i + 1) (set content i b) (record c { input = bs }) in
      if ltb i 1024 then rest else fault (record c { input = bs })
]

-- `path` ends in ".c".
unfoldable pub ends_in_c : Bytes → Bool
ends_in_c [] = false
ends_in_c (a ∷ []) = false
ends_in_c (a ∷ b ∷ []) = a == b'.' && b == b'c'
ends_in_c (a ∷ b ∷ c ∷ rest) = ends_in_c (b ∷ c ∷ rest)

-- `postContent` after the method's branch: what was read for a POST, else what the stack held.
unfoldable pub post_content : Host → Bytes → ℤ → H Bytes
post_content host method len =
    if str_case_eq method get
    then returned host.stack_post
    else if str_case_eq method post
    then read_content (rounds len) 0 (replicate 1024 0)
    else returned host.stack_post

-- The branch for a path that ends in ".c".
unfoldable pub run_c : Host → Bytes → Bytes → ℤ → H (Unit {0})
run_c host path method len = do
  content ← post_content host method len
  (if str_case_eq path (codes "htdocs/motor_control.c")
      then on_qik (process_motor_control content)
      else returned tt)

-- The branch for a script: its environment goes into buffers of 255 bytes, and then `execl` puts the
-- script in the place of this process, or `exit` ends it.
unfoldable pub run_script : Bytes → Option Bytes → H (Unit {0})
run_script method query c =
    if ltb 255 (length (codes "REQUEST_METHOD=") + length method + 1)
    then fault c
    else if str_case_eq method get
    then elim query [
      | none ↦ fault c
      | some q ↦
          if ltb 255 (length (codes "QUERY_STRING=") + length q + 1) then fault c else exited c
    ]
    else exited c

-- Behind the headers.
unfoldable pub respond : Host → Bytes → Bytes → Option Bytes → ℤ → H (Unit {0})
respond host path method query len = do
  modify (send (codes "HTTP/1.0 200 OK\r\n"))
  (if ends_in_c path then run_c host path method len else run_script method query)

unfoldable pub execute_cgi : Host → Bytes → Bytes → Option Bytes → H (Unit {0})
execute_cgi host path method query c =
    if str_case_eq method get
    then (do skip_headers host.stack_buf; respond host path method query minus_one) c
    else if str_case_eq method post
    then elim (post_headers (length c.input + 2) minus_one
        (get_line c.input (fresh_buf host.stack_buf) 1024)) [
          | none ↦ running c
          | some (negsuc zero, g) ↦
              returned tt (bad_request host.stack_buf (record c { input = g.rest }))
          | some (len, g) ↦
              let rest = respond host path method query len (record c { input = g.rest }) in
              if fits_int len then rest else fault (record c { input = g.rest })
        ]
    else respond host path method query minus_one c
