-- ===== src/Web/Tests.antt =====
-- The concrete inputs at which the theorems on the web server are applied.
mod Requests
mod Parts
mod Orders
mod Scripts
mod Reached
use telebra.Base.{
  ℕ, suc, ◌+◌, ◌≤◌, ◌<◌, ◌≡◌, ◌≢◌, ◌⊎◌, inl, inr, refl, ap, Bool, true, false, not, ◌&&◌, Option,
  none, some, List, [], ◌∷◌, ◌++◌, arith, ◌==◌, if◌then◌else◌, ltb, All, Bytes, length, drop,
  replicate, set, codes, pos, minus_one, Outcome, returned, fault, exited,
}
use telebra.Libc.{is_space, str_case_eq, atoi, signed_value, skip_spaces, digits_value}
use telebra.Qik.State.{Qik, initial}
use telebra.Qik.Queue.Fifo.{Queues}
use telebra.Qik.Commands.Protocol.{decode}
use telebra.Qik.Commands.Laws.{frame, Apart}
use telebra.Qik.Motor.Drive.{left}
use telebra.Web.State.{ending, Client, Host, send}
use telebra.Web.GetLine.{
  Got, get_line, read_line, line_byte, after_cr, discard_headers, more_headers,
}
use telebra.Web.GetLine.Lines.{unix_lines, IsLine, ends_line, get_line-reads}
use telebra.Web.GetLine.Headers.{
  Terminator, lf, crlf, cr, IsText, IsHeader, render_headers, get_line_text, discard_headers_total,
}
use telebra.Web.Pages.{
  headers_texts, not_found_texts, unimplemented_texts, bad_request, bad_request_texts,
}
use telebra.Web.Pages.Sizes.{total, total-bad_request}
use telebra.Web.File.{send_file, until_nul}
use telebra.Web.File.Content.{IsFileLine, Sends, send_file-Sends}
use telebra.Web.Cgi.{post, get, ends_in_c, post_headers, read_content, header_length, execute_cgi}
use telebra.Web.Cgi.Content.{read_content_fits, read_content_overflows}
use telebra.Web.Cgi.Headers.{keep, line_length, header_length-line_length}
use telebra.Web.Cgi.Declared.{declared, post_headers-declared}
use telebra.Web.Cgi.Post.{ok_line, order}
use telebra.Web.Cgi.Script.{execute_cgi_script}
use telebra.Web.Request.{accept_request, request_line, path_of, split_query, copy_word, skip_space}
use telebra.Web.Request.Drive.{accept_request-drives}
use telebra.Web.Request.Bounds.{request_line_bounds}
use telebra.Web.Request.Words.{IsWord}
use telebra.Web.Request.Answers.{
  accept_request_missing, accept_request_file, accept_request_unopened,
}
use telebra.Web.Request.Other.{accept_request_other}

pub initial-Queues : Queues initial []
initial-Queues = record {
  holds = record {
    size = refl;
    head_in = omega arith;
    tail_in = omega arith;
    room = omega arith;
    spans = refl;
  };
  short = tt;
}

abbrev all : (ℕ → Bool) → Bytes → Bool
all p [] = true
all p (c ∷ cs) = p c && all p cs

-- A test of each byte, for a predicate that it decides.
by_test :
    (P : ℕ → Type 0) (p : ℕ → Bool)
    → ((c : ℕ) → p c ≡ true → P c)
    → (cs : Bytes) → all p cs ≡ true
    → All P cs
by_test P p sound [] h = tt
by_test P p sound (c ∷ cs) h = ground (arith, sound c, by_test P p sound cs)

not_zero : (cs : Bytes) → all (λ c. not (c == 0)) cs ≡ true → All (λ c. c ≢ 0) cs
not_zero = by_test (λ c. c ≢ 0) (λ c. not (c == 0)) (λ c h. ground arith)

not_line_end : (cs : Bytes) → all (λ c. not (c == 10)) cs ≡ true → All (λ c. c ≢ 10) cs
not_line_end = by_test (λ c. c ≢ 10) (λ c. not (c == 10)) (λ c h. ground arith)

text : (cs : Bytes) → all (λ c. not (c == 10) && not (c == 13)) cs ≡ true → IsText cs
text =
    by_test (λ c. (c ≢ 10) × (c ≢ 13)) (λ c. not (c == 10) && not (c == 13))
      (λ c h. (ground arith, ground arith))

header :
    (c : ℕ) (cs : Bytes)
    → all (λ d. not (d == 10) && not (d == 13)) (c ∷ cs) ≡ true
    → all (λ d. not (d == 0)) (c ∷ cs) ≡ true
    → length (c ∷ cs) + 2 ≤ 1024
    → IsHeader (c ∷ cs)
header c cs h k n = (λ e. cc, text (c ∷ cs) h, not_zero (c ∷ cs) k, n)

abbrev page : Host
page = record {
  stat = λ path. some 0x81a4;
  fopen = λ path. some (ending (codes "<P>\nHi\n"));
  patience = 0;
  stack_buf = replicate 1024 7;
  stack_st_mode = 0x81a4;
  stack_post = replicate 1024 7;
}

abbrev empty : Host
empty = record page { stat = λ path. none; fopen = λ path. none }

abbrev client : Bytes → Client
client bytes = record { input = bytes; output = []; closed = false; qik = initial }

abbrev length_header : Bytes
length_header = codes "Content-Length: 10"

-- The page's request for a turn to the left.
abbrev turn_left : Bytes
turn_left = codes "POST /motor_control.c HTTP/1.1\r\nContent-Length: 10\r\n\r\nLEFT_START"

word : (cs : Bytes) → all (λ c. not (is_space c) && not (c == 0)) cs ≡ true → IsWord cs
word =
    by_test (λ c. (is_space c ≡ false) × (c ≢ 0)) (λ c. not (is_space c) && not (c == 0))
      (λ c h. (ground arith, ground arith))

not_query : (cs : Bytes) → all (λ c. not (c == b'?')) cs ≡ true → All (λ c. c ≢ b'?') cs
not_query = by_test (λ c. c ≢ b'?') (λ c. not (c == b'?')) (λ c h. ground arith)

abbrev get_hi : Bytes
get_hi = codes "GET /hi.txt HTTP/1.1"

file_line :
    (cs : Bytes)
    → all (λ c. not (c == 10) && not (c == 0)) cs ≡ true
    → length cs + 1 < 1023
    → IsFileLine cs
file_line cs h n = (
  by_test (λ c. (c ≢ 10) × (c ≢ 0)) (λ c. not (c == 10) && not (c == 0))
      (λ c k. (ground arith, ground arith)) cs h,
  n,
)

hi-IsWord : IsWord (codes "/hi.txt")
hi-IsWord = word (codes "/hi.txt") (unfold is_space in refl)

abbrev get_page : Bytes
get_page = codes "GET /hi.txt HTTP/1.1\nHost: a\r\n\n"
