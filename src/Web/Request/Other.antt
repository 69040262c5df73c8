-- ===== src/Web/Request/Other.antt =====
-- A request with another method than GET and POST.
use telebra.Base.{
  ◌+◌, ◌≤◌, ◌<◌, ◌≡◌, ◌≢◌, refl, ap, ◌∙◌, false, [], ◌∷◌, ◌++◌, append_assoc, Bytes, length, drop,
  returned,
}
use telebra.Libc.{str_case_eq, is_space}
use telebra.Web.State.{Client, Host}
use telebra.Web.GetLine.{Got, get_line}
use telebra.Web.GetLine.Headers.{Terminator, terminator, Ends, IsText, get_line_text}
use telebra.Web.Pages.{unimplemented_texts, unimplemented, send_texts}
use telebra.Web.Pages.Sizes.{output-send_texts}
use telebra.Web.Cgi.{get, post}
use telebra.Web.Request.{RequestLine, request_line, accept_request}
use telebra.Web.Request.Words.{IsWord, request_line_words}

accept_request-unimplemented :
    (host : Host) (c : Client) (g : Got) (r : RequestLine)
    → get_line c.input host.stack_buf 1024 ≡ g
    → request_line g.buf ≡ r
    → str_case_eq r.method get ≡ false
    → str_case_eq r.method post ≡ false
    → accept_request host c ≡ returned tt (unimplemented (record c { input = g.rest }))
unfolding accept_request
accept_request-unimplemented host c g r e f a b = rw (e, f, a, b) refl

-- A first line of a method, a URL and a version.
abbrev pub first_line : Bytes → Bytes → Bytes → Bytes
first_line m u v = m ++ b' ' ∷ (u ++ b' ' ∷ v)

request_line-first_line :
    (m u v stale : Bytes)
    → IsWord m
    → IsWord u
    → u ≢ []
    → length m < 254
    → length u < 254
    → request_line (first_line m u v ++ stale) ≡ record { method = m; url = u }
request_line-first_line m u v stale hm hu ne lm lu =
    ap request_line (
      append_assoc m (b' ' ∷ (u ++ b' ' ∷ v)) stale
      ∙ ap (λ b. m ++ b' ' ∷ b) (append_assoc u (b' ' ∷ v) stale))
    ∙ request_line_words m u [] (v ++ stale) b' ' b' ' hm hu ne (unfold is_space in (refl, tt))
        (unfold is_space in refl) lm lu

-- A request whose method is neither GET nor POST, in any case of letters, and whose first line fits
-- the buffer gets the 501 page: only that line was read, the driver was asked for nothing, and the
-- connection is not closed.
pub accept_request_other :
    (host : Host) (c : Client) (m u v after : Bytes) (s : Terminator)
    → c.input ≡ first_line m u v ++ (terminator s ++ after)
    → IsText (first_line m u v)
    → Ends s after
    → length (first_line m u v) + 2 ≤ 1024
    → IsWord m
    → IsWord u
    → u ≢ []
    → length m < 254
    → length u < 254
    → str_case_eq m get ≡ false
    → str_case_eq m post ≡ false
    → accept_request host c
      ≡ returned tt (record {
        input = after;
        output = c.output ++ unimplemented_texts;
        closed = c.closed;
        qik = c.qik;
      })
accept_request_other host c m u v after s e text end fits hm hu ne lm lu a b =
    let line = first_line m u v in
    let stale = b'\n' ∷ 0 ∷ drop (length line + 2) host.stack_buf in
    let g : Got = record { numchars = length line + 1; buf = line ++ stale; rest = after } in
    let d : Client = record c { input = after } in
    accept_request-unimplemented host c g (record { method = m; url = u })
      (ap (λ i. get_line i host.stack_buf 1024) e
        ∙ get_line_text line after host.stack_buf s 1024 text end fits)
      (request_line-first_line m u v stale hm hu ne lm lu) a b
    ∙ unfold unimplemented send_texts in
      ap (λ o. returned tt (record d { output = o })) (output-send_texts unimplemented_texts d)
