-- ===== src/Web/Request/Answers.antt =====
-- What becomes of a GET request without a query.
use telebra.Base.{
  ℕ, ◌+◌, ◌≤◌, ◌<◌, ◌≡◌, ◌≢◌, refl, ap, ◌∙◌, true, false, none, some, List, [], ◌∷◌, ◌++◌,
  if◌then◌else◌, Bytes, length, drop, codes, All, returned, fault, >>=-returned, >>=-fault, modify,
}
use telebra.Web.State.{ending, Client, Host}
use telebra.Web.GetLine.{Got}
use telebra.Web.GetLine.Headers.{Terminator, terminator, Ends, IsText, render_headers, WellEnded}
use telebra.Web.Pages.{headers_texts, not_found, not_found_texts, send_texts}
use telebra.Web.Pages.Sizes.{output-send_texts}
use telebra.Web.File.Content.{IsFileLine, unlines, ended}
use telebra.Web.File.Serve.{serve_file_missing, serve_file_lines}
use telebra.Web.Cgi.{get, ends_in_c}
use telebra.Web.Request.{path_of, is_dir, is_executable, find_path, close, accept_request}
use telebra.Web.Request.Words.{IsWord}
use telebra.Web.Request.Get.{
  get_request, accept_request-after_line, refuse_total, find_path-refuse, find_path-serve_file,
}

-- A GET without a query for a path that does not exist and does not end in ".c", in a first line that
-- fits the buffer: whatever headers follow, `accept_request` returns, the client got the 404 page and
-- was closed, and the driver was asked for nothing.
pub accept_request_missing :
    (host : Host) (c : Client) (u v after : Bytes) (s : Terminator)
    → c.input ≡ get_request u v ++ (terminator s ++ after)
    → IsText (get_request u v)
    → Ends s after
    → length (get_request u v) + 2 ≤ 1024
    → IsWord u
    → u ≢ []
    → length u < 254
    → All (λ x. x ≢ b'?') u
    → ends_in_c (path_of u) ≡ false
    → host.stat (path_of u) ≡ none
    → (left : Bytes) × (accept_request host c
        ≡ returned tt (record {
          input = left;
          output = c.output ++ not_found_texts;
          closed = true;
          qik = c.qik;
        }))
accept_request_missing host c u v after s e text end fits word ne short q code gone =
    let line = get_request u v in
    let stale = b'\n' ∷ 0 ∷ drop (length line + 2) host.stack_buf in
    let g : Got = record { numchars = length line + 1; buf = line ++ stale; rest = after } in
    let k : Client = record c { input = after } in
    let (left, run) = refuse_total g k in
    let d : Client = record c { input = left } in
    (
      left,
      accept_request-after_line host c u v after s e text end fits word ne short q
          ∙ >>=-returned (find_path host g (path_of u) get (some []) false) (λ _. modify close)
              (find_path-refuse host g (path_of u) get (some []) false k code gone ∙ run)
          ∙ unfold not_found send_texts in
            ap (λ o. returned tt (close (record d { output = o })))
              (output-send_texts not_found_texts d),
    )

-- A GET without a query, in a well-formed request, for an existing path that does not end in ".c"
-- and that no one may execute, serves the file: "index.html" in it, if it is a directory. Where the
-- file is lines that fit the buffer, and a last one without a line feed, the client gets the 200
-- header and exactly the lines that end in a line feed, and is closed; the input goes on behind the
-- headers, and the driver was asked for nothing.
pub accept_request_file :
    (host : Host) (c : Client) (u v target body : Bytes) (mode : ℕ) (s t : Terminator)
    (hs : List (Bytes × Terminator)) (ls : List Bytes) (last : Bytes)
    → let after = render_headers hs (terminator t ++ body) in
      c.input ≡ get_request u v ++ (terminator s ++ after)
      → IsText (get_request u v)
      → Ends s after
      → length (get_request u v) + 2 ≤ 1024
      → IsWord u
      → u ≢ []
      → length u < 254
      → All (λ x. x ≢ b'?') u
      → ends_in_c (path_of u) ≡ false
      → host.stat (path_of u) ≡ some mode
      → is_executable mode ≡ false
      → (if is_dir mode then path_of u ++ codes "/index.html" else path_of u) ≡ target
      → host.fopen target ≡ some (ending (unlines ls last))
      → All IsFileLine ls
      → All (λ x. x ≢ b'\n') last
      → length last < 1023
      → WellEnded hs (terminator t ++ body)
      → Ends t body
      → accept_request host c
        ≡ returned tt (record {
          input = body;
          output = c.output ++ (headers_texts ++ ended ls);
          closed = true;
          qik = c.qik;
        })
accept_request_file host c u v target body mode s t hs ls last e text end fits word ne short q code
      st x at file lines open_end small w b =
    let after = render_headers hs (terminator t ++ body) in
    let line = get_request u v in
    let stale = b'\n' ∷ 0 ∷ drop (length line + 2) host.stack_buf in
    let g : Got = record { numchars = length line + 1; buf = line ++ stale; rest = after } in
    let k : Client = record c { input = after } in
    accept_request-after_line host c u v after s e text end fits word ne short q
    ∙ >>=-returned (find_path host g (path_of u) get (some []) false) (λ _. modify close)
        (find_path-serve_file host g (path_of u) get target (some []) mode k code st x at
          ∙ serve_file_lines host target ls last hs t body k file lines open_end small refl w b)

-- A GET without a query for an existing path that does not end in ".c" and that no one may execute,
-- where the file cannot be opened, as in a directory with no index.html: the client gets the 404
-- page, and then `fclose` is given a null pointer.
pub accept_request_unopened :
    (host : Host) (c : Client) (u v after target : Bytes) (mode : ℕ) (s : Terminator)
    → c.input ≡ get_request u v ++ (terminator s ++ after)
    → IsText (get_request u v)
    → Ends s after
    → length (get_request u v) + 2 ≤ 1024
    → IsWord u
    → u ≢ []
    → length u < 254
    → All (λ x. x ≢ b'?') u
    → ends_in_c (path_of u) ≡ false
    → host.stat (path_of u) ≡ some mode
    → is_executable mode ≡ false
    → (if is_dir mode then path_of u ++ codes "/index.html" else path_of u) ≡ target
    → host.fopen target ≡ none
    → (d : Client) × (accept_request host c ≡ fault d) × (d.output ≡ c.output ++ not_found_texts)
accept_request_unopened host c u v after target mode s e text end fits word ne short q code st x at
      no_file =
    let line = get_request u v in
    let stale = b'\n' ∷ 0 ∷ drop (length line + 2) host.stack_buf in
    let g : Got = record { numchars = length line + 1; buf = line ++ stale; rest = after } in
    let k : Client = record c { input = after } in
    let (d, run, sent, stays) = serve_file_missing host target k no_file in
    (
      d,
      accept_request-after_line host c u v after s e text end fits word ne short q
          ∙ >>=-fault (find_path host g (path_of u) get (some []) false) (λ _. modify close)
              (find_path-serve_file host g (path_of u) get target (some []) mode k code st x at
                ∙ run),
      sent,
    )
