-- ===== src/Web/Request/Kept/Files.antt =====
-- The fixed responses and `serve_file`: they leave the driver alone.
use telebra.Base.{
  ℕ, zero, suc, ◌+◌, ◌≡◌, refl, inl, inr, Option-cases, Option, none, some, List, [], ◌∷◌, Bytes,
  length, Ensures-if, Any, Keeps, Keeps-then,
}
use telebra.Qik.State.{Qik}
use telebra.Web.State.{File, ending, endless, Client, Host, send}
use telebra.Web.GetLine.{discard_headers}
use telebra.Web.Pages.{
  send_texts, send_buffers, headers, headers_texts, not_found, not_found_texts, unimplemented,
  unimplemented_texts, bad_request, bad_request_texts,
}
use telebra.Web.File.{
  send_endless, send_resource, Chunk, fgets, until_nul, send_chunks, send_file, skip_headers,
  fresh_buf, serve_opened, serve_file,
}

-- A predicate on the driver's state, of a connection.
abbrev pub Kept : (Qik → Type 0) → Client → Type 0
Kept P c = P c.qik

send_texts-qik : (ss : List Bytes) (c : Client) → (send_texts ss c).qik ≡ c.qik
unfolding send_texts
send_texts-qik [] c = refl
send_texts-qik (s ∷ ss) c = send_texts-qik ss (send s c)

send_buffers-qik :
    (ss : List Bytes) (buf : Bytes) (c : Client) → (send_buffers ss buf c).qik ≡ c.qik
unfolding send_buffers
send_buffers-qik [] buf c = refl
send_buffers-qik (s ∷ ss) buf c = send_buffers-qik ss _ (send _ c)

module _ (P : Qik → Type 0) where
  headers-Kept : (c : Client) → Kept P c → Kept P (headers c)
  unfolding headers
  headers-Kept c p = rw (send_texts-qik headers_texts c) p

  pub not_found-Kept : (c : Client) → Kept P c → Kept P (not_found c)
  unfolding not_found
  not_found-Kept c p = rw (send_texts-qik not_found_texts c) p

  pub unimplemented-Kept : (c : Client) → Kept P c → Kept P (unimplemented c)
  unfolding unimplemented
  unimplemented-Kept c p = rw (send_texts-qik unimplemented_texts c) p

  pub bad_request-Kept : (buf : Bytes) (c : Client) → Kept P c → Kept P (bad_request buf c)
  unfolding bad_request
  bad_request-Kept buf c p = rw (send_buffers-qik bad_request_texts buf c) p

  pub skip_headers-Keeps : (stack : Bytes) → Keeps (Kept P) Any (skip_headers stack)
  unfolding skip_headers
  skip_headers-Keeps stack = record {
    at = λ c p.
        elim (Option-cases (
          discard_headers (length c.input + 2)
            (record { numchars = 1; buf = fresh_buf stack; rest = c.input }))) [
              | inl e ↦ rw (e, skip_headers) p
              | inr (g, e) ↦ rw (e, skip_headers) (tt, p)
            ];
  }

  send_chunks-Keeps : (n : ℕ) (k : Chunk) → Keeps (Kept P) Any (send_chunks n k)
  unfolding send_chunks
  send_chunks-Keeps zero k = record { at = λ c p. p }
  send_chunks-Keeps (suc n) k = record {
    at = λ c p.
        Ensures-if Any (Kept P) k.eof _ _ (tt, p)
          ((send_chunks-Keeps n (fgets 1023 k.left)).at (send (until_nul k.text) c) p);
  }

  send_endless-Keeps : (n : ℕ) (reads : ℕ → Bytes) → Keeps (Kept P) Any (send_endless n reads)
  unfolding send_endless
  send_endless-Keeps zero reads = record { at = λ c p. p }
  send_endless-Keeps (suc n) reads = record {
    at = λ c p. (send_endless-Keeps n (λ i. reads (suc i))).at (send (until_nul (reads 0)) c) p;
  }

  serve_opened-Keeps :
      (patience : ℕ) (file : Option File) → Keeps (Kept P) Any (serve_opened patience file)
  unfolding serve_opened send_resource send_file
  serve_opened-Keeps patience none = record { at = not_found-Kept }
  serve_opened-Keeps patience (some (endless reads)) = record {
    at = λ c p. (send_endless-Keeps patience reads).at (headers c) (headers-Kept c p);
  }
  serve_opened-Keeps patience (some (ending file)) = record {
    at = λ c p.
        (send_chunks-Keeps (length file + 2) (fgets 1023 file)).at (headers c) (headers-Kept c p);
  }

  pub serve_file-Keeps : (host : Host) (name : Bytes) → Keeps (Kept P) Any (serve_file host name)
  unfolding serve_file
  serve_file-Keeps host name =
      Keeps-then Any _ _ (skip_headers-Keeps host.stack_buf)
        (serve_opened-Keeps host.patience (host.fopen name))
