-- ===== src/Web/Cgi/Post.antt =====
-- `execute_cgi` for a POST to motor_control.c.
use telebra.Base.{
  ◌^◌, lt→ltb, ℕ, ◌+◌, ◌≤◌, ◌<◌, ◌≡◌, refl, ap, ◌∙◌, Bool, true, false, Option, some, List, [], ◌∷◌,
  ◌++◌, arith, Bytes, length, drop, replicate, codes, ℤ, pos, minus_one, rounds, returned,
  >>=-returned,
}
use telebra.Libc.{str_case_eq}
use telebra.Qik.State.{Qik}
use telebra.Qik.Queue.Fifo.{Frame, encode_all, Queues}
use telebra.Qik.Commands.Protocol.{decode}
use telebra.Qik.Commands.Laws.{frame, Apart}
use telebra.Qik.Motor.{process_motor_control}
use telebra.Qik.Motor.Drive.{
  Direction, direction_word, action_word, action_speed, turns_forward, process_motor_control-drives,
  up, down, left, right, request,
}
use telebra.Web.State.{Client, Host, send, on_qik}
use telebra.Web.GetLine.{Got, get_line}
use telebra.Web.GetLine.Headers.{
  Terminator, terminator, Ends, render_headers, WellEnded, get_line_text,
}
use telebra.Web.File.{fresh_buf}
use telebra.Web.File.Serve.{length-render_headers}
use telebra.Web.Cgi.{
  post, post_headers, post_content, ends_in_c, run_c, respond, execute_cgi, read_content,
}
use telebra.Web.Cgi.Content.{read_content_fits}
use telebra.Web.Cgi.Declared.{declared, post_headers-declared}

abbrev pub motor_control : Bytes
motor_control = codes "htdocs/motor_control.c"

abbrev pub ok_line : Bytes
ok_line = codes "HTTP/1.0 200 OK\r\n"

execute_cgi-post_headers :
    (host : Host) (path : Bytes) (query : Option Bytes) (c : Client) (n : ℕ) (g : Got)
    → post_headers (length c.input + 2) minus_one (get_line c.input (fresh_buf host.stack_buf) 1024)
      ≡ some (pos n, g)
    → n < 2 ^ 31
    → execute_cgi host path post query c
      ≡ respond host path post query (pos n) (record c { input = g.rest })
unfolding execute_cgi str_case_eq
execute_cgi-post_headers host path query c n g e lt =
    rw (e, execute_cgi) (rw (lt→ltb n (2 ^ 31) lt) refl)

-- The loop over the headers of a request whose headers declare a content length.
pub post_headers-content :
    (input stack l : Bytes) (s : Terminator) (hs : List (Bytes × Terminator)) (t : Terminator)
    (content : Bytes) (n : ℕ)
    → input ≡ render_headers ((l, s) ∷ hs) (terminator t ++ content)
    → WellEnded ((l, s) ∷ hs) (terminator t ++ content)
    → Ends t content
    → declared minus_one ((l, s) ∷ hs) ≡ pos n
    → (g : Got) × (post_headers (length input + 2) minus_one (get_line input stack 1024)
        ≡ some (pos n, g))
      × (g.rest ≡ content)
post_headers-content input stack l s hs t content n e w b len =
    let after = render_headers hs (terminator t ++ content) in
    let enough = length-render_headers ((l, s) ∷ hs) (terminator t ++ content) in
    let (g, run, at) =
      post_headers-declared (length input + 2) minus_one l (drop (length l + 2) stack) s hs t
        content w b (omega (arith, enough, ap length e)) in
    (
      g,
      ap (post_headers (length input + 2) minus_one)
            (ap (λ i. get_line i stack 1024) e ∙ get_line_text l after stack s 1024 w.0.1 w.1 w.0.3)
          ∙ run
          ∙ ap (λ v. some (v, g)) len,
      at,
    )

-- A POST with headers that declare a content length goes on behind them, at the content.
execute_cgi-post :
    (host : Host) (path : Bytes) (query : Option Bytes) (c : Client) (l : Bytes) (s : Terminator)
    (hs : List (Bytes × Terminator)) (t : Terminator) (content : Bytes) (n : ℕ)
    → c.input ≡ render_headers ((l, s) ∷ hs) (terminator t ++ content)
    → WellEnded ((l, s) ∷ hs) (terminator t ++ content)
    → Ends t content
    → declared minus_one ((l, s) ∷ hs) ≡ pos n
    → n < 2 ^ 31
    → execute_cgi host path post query c
      ≡ respond host path post query (pos n) (record c { input = content })
execute_cgi-post host path query c l s hs t content n e w b len small =
    let (g, run, at) =
      post_headers-content c.input (fresh_buf host.stack_buf) l s hs t content n e w b len in
    execute_cgi-post_headers host path query c n g run small
    ∙ ap (λ i. respond host path post query (pos n) (record c { input = i })) at

-- The content in `postContent`, with the zeros of `memset` behind it.
abbrev pub order : Direction → Bool → Bytes
order d go = direction_word d ++ b'_' ∷ action_word go

order-request :
    (d : Direction) (go : Bool)
    → (zeros : Bytes) × (order d go ++ drop (length (order d go)) (replicate 1024 0)
        ≡ request d go zeros)
      × (length (order d go) ≤ 1024)
order-request up true = (replicate 1015 0, refl, omega arith)
order-request up false = (replicate 1016 0, refl, omega arith)
order-request down true = (replicate 1013 0, refl, omega arith)
order-request down false = (replicate 1014 0, refl, omega arith)
order-request left true = (replicate 1013 0, refl, omega arith)
order-request left false = (replicate 1014 0, refl, omega arith)
order-request right true = (replicate 1012 0, refl, omega arith)
order-request right false = (replicate 1013 0, refl, omega arith)

respond-run_c :
    (host : Host) (query : Option Bytes) (len : ℤ) (c : Client)
    → respond host motor_control post query len c
      ≡ run_c host motor_control post len (send ok_line c)
unfolding respond ends_in_c
respond-run_c host query len c = refl

post_content-read_content :
    (host : Host) (len : ℤ) (c : Client)
    → post_content host post len c ≡ read_content (rounds len) 0 (replicate 1024 0) c
unfolding post_content str_case_eq
post_content-read_content host len c = refl

run_c-process_motor_control :
    (host : Host) (content : Bytes) (len : ℤ) (c d : Client) (q : Qik)
    → post_content host post len c ≡ returned content d
    → process_motor_control content d.qik ≡ returned tt q
    → run_c host motor_control post len c ≡ returned tt (record d { qik = q })
unfolding run_c str_case_eq
run_c-process_motor_control host content len c d q e f =
    >>=-returned (post_content host post len) (λ x. on_qik (process_motor_control x)) e
    ∙ rw (f, on_qik) refl

-- A POST to motor_control.c whose headers declare the length of the content, and whose content is
-- one of the page's orders: the client gets the status line, the input goes on behind the content,
-- and the driver's queue has exactly the two motor commands of the order behind what was queued.
pub execute_cgi-drives :
    (host : Host) (query : Option Bytes) (c : Client) (l : Bytes) (s : Terminator)
    (hs : List (Bytes × Terminator)) (t : Terminator) (d : Direction) (go : Bool) (rest : Bytes)
    (fs : List Frame)
    → c.input ≡ render_headers ((l, s) ∷ hs) (terminator t ++ (order d go ++ rest))
    → WellEnded ((l, s) ∷ hs) (terminator t ++ (order d go ++ rest))
    → Ends t (order d go ++ rest)
    → declared minus_one ((l, s) ∷ hs) ≡ pos (length (order d go))
    → Queues c.qik fs
    → c.qik.mutex ≡ false
    → length (encode_all fs) + 12 < 1024
    → (q : Qik) × (a : Bytes) × (b : Bytes) × (execute_cgi host motor_control post query c
        ≡ returned tt (record c { input = rest; output = c.output ++ ok_line ∷ []; qik = q }))
      × (decode 9 a
          ≡ some (record { motor = 0; forward = (turns_forward d).0; speed = action_speed go }))
      × (decode 9 b
          ≡ some (record { motor = 1; forward = (turns_forward d).1; speed = action_speed go }))
      × Queues q (fs ++ frame a false ∷ frame b false ∷ [])
      × (q.mutex ≡ false)
      × Apart c.qik q
execute_cgi-drives host query c l s hs t d go rest fs e w b len queued free room =
    let (zeros, buffer, small) = order-request d go in
    let (q, x, y, run, dx, dy, after, free', apart) =
      process_motor_control-drives d go zeros c.qik fs queued free room in
    let n = pos (length (order d go)) in
    let k : Client = send ok_line (record c { input = order d go ++ rest }) in
    let read =
      post_content-read_content host n k
      ∙ read_content_fits (order d go) rest k refl small
      ∙ ap (λ m. returned m (record k { input = rest })) buffer in
    (
      q,
      x,
      y,
      execute_cgi-post host motor_control query c l s hs t (order d go ++ rest)
            (length (order d go)) e w b len (omega (arith, small))
          ∙ respond-run_c host query n (record c { input = order d go ++ rest })
          ∙ run_c-process_motor_control host (request d go zeros) n k (record k { input = rest }) q
              read run,
      dx,
      dy,
      after,
      free',
      apart,
    )
