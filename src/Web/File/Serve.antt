-- ===== src/Web/File/Serve.antt =====
-- `serve_file` as a whole.
use telebra.Base.{
  ◌+◌, ◌≤◌, ◌<◌, ◌≡◌, ◌≢◌, refl, ◌∙◌, ap, none, some, List, [], ◌∷◌, ◌++◌, append_assoc, arith,
  Bytes, length, length-append, All, returned, fault, >>=-returned,
}
use telebra.Web.State.{ending, Client, Host}
use telebra.Web.GetLine.{Got}
use telebra.Web.GetLine.Headers.{
  Terminator, lf, crlf, cr, terminator, Ends, render_headers, WellEnded, discard_headers_total,
  discard_headers_skips,
}
use telebra.Web.Pages.{headers, headers_texts, not_found, not_found_texts, send_texts}
use telebra.Web.Pages.Sizes.{output-send_texts}
use telebra.Web.File.{send_resource, fresh_buf, skip_headers, serve_opened, serve_file}
use telebra.Web.File.Content.{IsFileLine, unlines, ended, send_file_lines}

-- Discarding headers always ends, and takes input only.
pub skip_headers_total :
    (stack : Bytes) (c : Client)
    → (left : Bytes) × (skip_headers stack c ≡ returned tt (record c { input = left }))
unfolding skip_headers
skip_headers_total stack c =
    let (h, run, over, short) =
      discard_headers_total (length c.input + 2)
        (record { numchars = 1; buf = fresh_buf stack; rest = c.input }) (omega arith) in
    (h.rest, rw (run, skip_headers))

length-terminator : (t : Terminator) (rest : Bytes) → 0 < length (terminator t ++ rest)
length-terminator lf rest = omega arith
length-terminator crlf rest = omega arith
length-terminator cr rest = omega arith

pub length-render_headers :
    (hs : List (Bytes × Terminator)) (rest : Bytes)
    → length hs + length rest ≤ length (render_headers hs rest)
length-render_headers [] rest = omega arith
length-render_headers ((l, t) ∷ hs) rest =
    let after = render_headers hs rest in
    omega (
      arith,
      length-append l (terminator t ++ after),
      length-append (terminator t) after,
      length-terminator t [],
      length-append (terminator t) [],
      length-render_headers hs rest,
    )

-- The headers of a well-formed request are skipped up to the body.
pub skip_headers_skips :
    (stack : Bytes) (hs : List (Bytes × Terminator)) (t : Terminator) (body : Bytes) (c : Client)
    → c.input ≡ render_headers hs (terminator t ++ body)
    → WellEnded hs (terminator t ++ body)
    → Ends t body
    → skip_headers stack c ≡ returned tt (record c { input = body })
unfolding skip_headers
skip_headers_skips stack hs t body c e w b =
    let start : Got = record { numchars = 1; buf = fresh_buf stack; rest = c.input } in
    let (h, run, at) = discard_headers_skips (length c.input + 2) hs t body start refl e w b (
      omega (
        arith,
        ap length e,
        length-render_headers hs (terminator t ++ body),
        length-terminator t body,
      )) in
    rw (run, skip_headers) (ap (λ i. returned tt (record c { input = i })) at)

-- A file that cannot be opened: the client gets the 404 page, and then the null pointer goes to
-- `fclose`, which is undefined behaviour; the handler never closes the client.
pub serve_file_missing :
    (host : Host) (filename : Bytes) (c : Client)
    → host.fopen filename ≡ none
    → (d : Client) × (serve_file host filename c ≡ fault d)
      × (d.output ≡ c.output ++ not_found_texts)
      × (d.closed ≡ c.closed)
unfolding serve_file serve_opened
serve_file_missing host filename c e =
    let (left, run) = skip_headers_total host.stack_buf c in
    let d = record c { input = left } in
    (
      not_found d,
      >>=-returned (skip_headers host.stack_buf) _ run ∙ ap (λ f. serve_opened host.patience f d) e,
      unfold not_found in output-send_texts not_found_texts d,
      unfold not_found send_texts in refl,
    )

-- A well-formed request for a text file of lines that fit the buffer is answered by the 200 header
-- and then exactly those lines that end in a line feed; what is left of the input is the body.
pub serve_file_lines :
    (host : Host) (filename : Bytes) (ls : List Bytes) (last : Bytes)
    (hs : List (Bytes × Terminator)) (t : Terminator) (body : Bytes) (c : Client)
    → host.fopen filename ≡ some (ending (unlines ls last))
    → All IsFileLine ls
    → All (λ x. x ≢ b'\n') last
    → length last < 1023
    → c.input ≡ render_headers hs (terminator t ++ body)
    → WellEnded hs (terminator t ++ body)
    → Ends t body
    → serve_file host filename c
      ≡ returned tt (record c { input = body; output = c.output ++ (headers_texts ++ ended ls) })
unfolding serve_file serve_opened send_resource
serve_file_lines host filename ls last hs t body c e h nl lt i w b =
    let d = record c { input = body } in
    >>=-returned (skip_headers host.stack_buf) _
      (skip_headers_skips host.stack_buf hs t body c i w b)
    ∙ ap (λ f. serve_opened host.patience f d) e
    ∙ send_file_lines ls last (headers d) h nl lt
    ∙ unfold headers send_texts in
      ap (λ o. returned tt (record d { output = o }))
        (ap (λ o. o ++ ended ls) (unfold headers in output-send_texts headers_texts d)
          ∙ append_assoc c.output headers_texts (ended ls))
