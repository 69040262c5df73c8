-- ===== src/Web/Request/Drive.antt =====
-- A whole request to motor_control.c, from the socket to the driver's queue.
use telebra.Base.{
  ◌+◌, ◌<◌, ◌≡◌, refl, ap, ◌∙◌, Bool, true, false, not, ◌&&◌, none, some, List, [], ◌∷◌, ◌++◌,
  Bytes, length, drop, codes, pos, minus_one, returned, >>=-returned, modify,
}
use telebra.Libc.{str_case_eq, is_space}
use telebra.Qik.State.{Qik}
use telebra.Qik.Queue.Fifo.{Frame, encode_all, Queues}
use telebra.Qik.Commands.Protocol.{decode}
use telebra.Qik.Commands.Laws.{frame, Apart}
use telebra.Qik.Motor.Drive.{Direction, action_speed, turns_forward}
use telebra.Web.State.{Client, Host}
use telebra.Web.GetLine.{Got, get_line}
use telebra.Web.GetLine.Headers.{
  Terminator, terminator, Ends, render_headers, WellEnded, get_line_text,
}
use telebra.Web.File.{until_nul}
use telebra.Web.Cgi.{get, post, ends_in_c, execute_cgi}
use telebra.Web.Cgi.Declared.{declared}
use telebra.Web.Cgi.Post.{motor_control, ok_line, order, execute_cgi-drives}
use telebra.Web.Request.{
  RequestLine, request_line, copy_word, skip_space, path_of, is_dir, find_path, answer, close,
  route, accept_request,
}

-- The first line of the page's requests, up to the version.
abbrev pub post_line : Bytes → Bytes
post_line version = codes "POST /motor_control.c " ++ version

request_line-post_line :
    (version : Bytes)
    → request_line (post_line version) ≡ record { method = post; url = codes "/motor_control.c" }
unfolding request_line copy_word skip_space until_nul is_space
request_line-post_line version = refl

route-execute_cgi :
    (host : Host) (g : Got) (c d : Client)
    → is_dir host.stack_st_mode ≡ false
    → execute_cgi host motor_control post none c ≡ returned tt d
    → route host g (record { method = post; url = codes "/motor_control.c" }) c
      ≡ returned tt (close d)
unfolding route find_path path_of ends_in_c answer str_case_eq
route-execute_cgi host g c d file run =
    rw file (>>=-returned (execute_cgi host motor_control post none) (λ _. modify close) run)

and_false : (b : Bool) → (b && false) ≡ false
and_false true = refl
and_false false = refl

accept_request-route :
    (host : Host) (c : Client) (g : Got) (r : RequestLine)
    → get_line c.input host.stack_buf 1024 ≡ g
    → request_line g.buf ≡ r
    → str_case_eq r.method post ≡ true
    → accept_request host c ≡ route host g r (record c { input = g.rest })
unfolding accept_request
accept_request-route host c g r e f p =
    rw (e, f, p, and_false (not (str_case_eq r.method get))) refl

-- A whole request: the line POST /motor_control.c, headers that declare the length of the content,
-- and a content that is one of the page's orders, with any mix of line ends. `accept_request` sends
-- the status line, closes the connection, and leaves exactly the two motor commands of the order
-- queued behind what was queued. It needs a free mutex, 12 bytes of room, and that the uninitialised
-- `st` does not look like a directory.
pub accept_request-drives :
    (host : Host) (c : Client) (version : Bytes) (u : Terminator) (l : Bytes) (s : Terminator)
    (hs : List (Bytes × Terminator)) (t : Terminator) (d : Direction) (go : Bool) (rest : Bytes)
    (fs : List Frame)
    → let body = terminator t ++ (order d go ++ rest) in
      c.input ≡ render_headers ((post_line version, u) ∷ (l, s) ∷ hs) body
      → WellEnded ((post_line version, u) ∷ (l, s) ∷ hs) body
      → Ends t (order d go ++ rest)
      → declared minus_one ((l, s) ∷ hs) ≡ pos (length (order d go))
      → is_dir host.stack_st_mode ≡ false
      → Queues c.qik fs
      → c.qik.mutex ≡ false
      → length (encode_all fs) + 12 < 1024
      → (q : Qik) × (a : Bytes) × (b : Bytes) × (accept_request host c
          ≡ returned tt
              (record { input = rest; output = c.output ++ ok_line ∷ []; closed = true; qik = q }))
        × (decode 9 a
            ≡ some (record { motor = 0; forward = (turns_forward d).0; speed = action_speed go }))
        × (decode 9 b
            ≡ some (record { motor = 1; forward = (turns_forward d).1; speed = action_speed go }))
        × Queues q (fs ++ frame a false ∷ frame b false ∷ [])
        × (q.mutex ≡ false)
        × Apart c.qik q
accept_request-drives host c version u l s hs t d go rest fs e w b len file queued free room =
    let after = render_headers ((l, s) ∷ hs) (terminator t ++ (order d go ++ rest)) in
    let line = post_line version in
    let stale = drop (length line + 2) host.stack_buf in
    let g : Got = record {
      numchars = length line + 1;
      buf = line ++ b'\n' ∷ 0 ∷ stale;
      rest = after;
    } in
    let r : RequestLine = record { method = post; url = codes "/motor_control.c" } in
    let k : Client = record c { input = after } in
    let (q, x, y, run, dx, dy, queued', free', apart) =
      execute_cgi-drives host none k l s hs t d go rest fs refl w.2 b len queued free room in
    let end : Client = record k { input = rest; output = c.output ++ ok_line ∷ []; qik = q } in
    (
      q,
      x,
      y,
      accept_request-route host c g r
            (ap (λ i. get_line i host.stack_buf 1024) e
              ∙ get_line_text line after host.stack_buf u 1024 w.0.1 w.1 w.0.3)
            (request_line-post_line (version ++ b'\n' ∷ 0 ∷ stale)) (unfold str_case_eq in refl)
          ∙ route-execute_cgi host g k end file run,
      dx,
      dy,
      queued',
      free',
      apart,
    )
