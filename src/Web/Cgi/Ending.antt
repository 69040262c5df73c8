-- ===== src/Web/Cgi/Ending.antt =====
-- `execute_cgi` never loops.
use telebra.Base.{
  fits_int, ℕ, zero, suc, ◌+◌, ◌≤◌, ◌<◌, ◌≡◌, refl, inl, inr, true, false, Bool-cases, Option, none,
  some, arith, ltb, Bytes, length, set, replicate, codes, ℤ, pos, negsuc, minus_one, rounds,
  Outcome, returned, blocked, running, fault, exited, Halts, if-Halts, if_run-Halts, >>=-Halts,
}
use telebra.Libc.{str_case_eq}
use telebra.Qik.State.{Qik}
use telebra.Qik.Motor.{process_motor_control}
use telebra.Qik.Motor.Ending.{process_motor_control-Halts}
use telebra.Web.State.{Client, Host, on_qik}
use telebra.Web.GetLine.{Got, get_line, more_headers}
use telebra.Web.GetLine.Lines.{get_line-progress}
use telebra.Web.Cgi.Content.{input-cases}
use telebra.Web.File.{skip_headers, fresh_buf}
use telebra.Web.File.Serve.{skip_headers_total}
use telebra.Web.Cgi.{
  get, post, ends_in_c, header_length, post_headers, read_content, post_content, run_c, run_script,
  respond, execute_cgi,
}

outcome-Halts : (o : Outcome Qik (Unit {0})) (c : Client) → Halts o → Halts (on_qik (λ q. o) c)
outcome-Halts (returned a q) c h = refl
outcome-Halts (blocked q) c h = refl
outcome-Halts (fault q) c h = refl
outcome-Halts (running q) c h = cc
outcome-Halts (exited q) c h = refl

read_content-Halts : (n i : ℕ) (content : Bytes) (c : Client) → Halts (read_content n i content c)
unfolding read_content
read_content-Halts zero i content c = refl
read_content-Halts (suc n) i content c = elim (input-cases c.input) [
  | inl e ↦ rw (e, read_content) (read_content-Halts n (i + 1) content c)
  | inr (b, bs, e) ↦
      rw (e, read_content)
        (if-Halts (ltb i 1024) _ _
          (read_content-Halts n (i + 1) (set content i b) (record c { input = bs })) refl)
]

post_content-Halts :
    (host : Host) (method : Bytes) (len : ℤ) (c : Client) → Halts (post_content host method len c)
unfolding post_content
post_content-Halts host method len c = if_run-Halts (str_case_eq method get) _ _ c refl (
    if_run-Halts (str_case_eq method post) _ _ c
      (read_content-Halts (rounds len) 0 (replicate 1024 0) c) refl)

run_c-Halts :
    (host : Host) (path method : Bytes) (len : ℤ) (c : Client)
    → Halts (run_c host path method len c)
unfolding run_c
run_c-Halts host path method len c =
    >>=-Halts (post_content host method len) _ c (post_content-Halts host method len c)
      (λ content d.
        if_run-Halts (str_case_eq path (codes "htdocs/motor_control.c")) _ _ d
          (outcome-Halts (process_motor_control content d.qik) d
            (process_motor_control-Halts content d.qik))
          refl)

run_script-Halts :
    (method : Bytes) (query : Option Bytes) (c : Client) → Halts (run_script method query c)
unfolding run_script
run_script-Halts method none c =
    if-Halts (ltb 255 (length (codes "REQUEST_METHOD=") + length method + 1)) (fault c) _ refl
      (if-Halts (str_case_eq method get) (fault c) (exited c) refl refl)
run_script-Halts method (some q) c =
    if-Halts (ltb 255 (length (codes "REQUEST_METHOD=") + length method + 1)) (fault c) _ refl (
      if-Halts (str_case_eq method get) _ (exited c)
        (if-Halts (ltb 255 (length (codes "QUERY_STRING=") + length q + 1)) (fault c) (exited c)
          refl refl)
        refl)

respond-Halts :
    (host : Host) (path method : Bytes) (query : Option Bytes) (len : ℤ) (c : Client)
    → Halts (respond host path method query len c)
unfolding respond
respond-Halts host path method query len c =
    if_run-Halts (ends_in_c path) _ _ _ (run_c-Halts host path method len _)
      (run_script-Halts method query _)

-- With two rounds more than there are bytes left to read, the loop over the headers ends.
post_headers_total :
    (n : ℕ) (len : ℤ) (g : Got)
    → length g.rest + 1 < n
    → (v : ℤ) × (h : Got) × (post_headers n len g ≡ some (v, h))
unfolding post_headers
post_headers_total zero len g lt = absurd (omega arith)
post_headers_total (suc zero) len g lt = absurd (omega arith)
post_headers_total (suc (suc n)) len g lt =
    let cut = set g.buf 15 0 in
    let next = get_line g.rest cut 1024 in
    let v = header_length len cut in
    elim (Bool-cases (more_headers g)) [
      | inl more ↦ elim (get_line-progress g.rest cut 1024 (omega arith)) [
        | inl (none_left, zero_read, stays) ↦
            let over : more_headers next ≡ false = rw zero_read refl in
            (v, next, rw more (rw (over, post_headers) refl))
        | inr (read, shorter) ↦
            let (w, h, run) = post_headers_total (suc n) v next (omega arith) in (w, h, rw more run)
      ]
      | inr over ↦ (len, g, rw over refl)
    ]

execute_cgi_posted-Halts :
    (host : Host) (path method : Bytes) (query : Option Bytes) (c : Client) (v : ℤ) (g : Got)
    → str_case_eq method get ≡ false
    → str_case_eq method post ≡ true
    → post_headers (length c.input + 2) minus_one (get_line c.input (fresh_buf host.stack_buf) 1024)
      ≡ some (v, g)
    → Halts (execute_cgi host path method query c)
unfolding execute_cgi
execute_cgi_posted-Halts host path method query c (pos n) g a b run =
    rw (a, b, run, execute_cgi)
      (if-Halts (fits_int (pos n)) _ _
        (respond-Halts host path method query (pos n) (record c { input = g.rest })) refl)
execute_cgi_posted-Halts host path method query c (negsuc zero) g a b run =
    rw (a, b, run, execute_cgi) refl
execute_cgi_posted-Halts host path method query c (negsuc (suc n)) g a b run =
    rw (a, b, run, execute_cgi)
      (if-Halts (fits_int (negsuc (suc n))) _ _
        (respond-Halts host path method query (negsuc (suc n)) (record c { input = g.rest })) refl)

length-get_line : (input buf : Bytes) → length (get_line input buf 1024).rest ≤ length input
length-get_line input buf = elim (get_line-progress input buf 1024 (omega arith)) [
  | inl (none_left, zero_read, stays) ↦ rw stays (omega arith)
  | inr (read, shorter) ↦ omega arith
]

pub execute_cgi-Halts :
    (host : Host) (path method : Bytes) (query : Option Bytes) (c : Client)
    → Halts (execute_cgi host path method query c)
unfolding execute_cgi
execute_cgi-Halts host path method query c =
    let buf = fresh_buf host.stack_buf in
    let (left, skipped) = skip_headers_total host.stack_buf c in
    let (v, g, run) =
      post_headers_total (length c.input + 2) minus_one (get_line c.input buf 1024)
        (omega (arith, length-get_line c.input buf)) in
    elim (Bool-cases (str_case_eq method get)) [
      | inl a ↦
          rw (a, execute_cgi)
            (>>=-Halts (skip_headers host.stack_buf) (λ _. respond host path method query minus_one)
              c (rw skipped refl) (λ _ d. respond-Halts host path method query minus_one d))
      | inr a ↦ elim (Bool-cases (str_case_eq method post)) [
        | inl b ↦ execute_cgi_posted-Halts host path method query c v g a b run
        | inr b ↦ rw (a, b, execute_cgi) (respond-Halts host path method query minus_one c)
      ]
    ]
