-- ===== src/Web/File.antt =====
-- `serve_file` of MotorDriver/httpd.c.
pub mod Content
pub mod Serve
use telebra.Base.{
  ℕ, zero, suc, ◌+◌, Bool, true, false, Option, none, some, [], ◌∷◌, ◌++◌, ◌==◌, if◌then◌else◌,
  Bytes, length, drop, Outcome, returned, fault, running, ◌>>=◌, ◌>>◌,
}
use telebra.Web.State.{File, ending, endless, Client, Host, H, send}
use telebra.Web.GetLine.{Got, discard_headers}
use telebra.Web.Pages.{headers, not_found}

-- One `fgets` with room for `n` bytes: the text, the file behind it, and whether it met the end of
-- the file.
pub record Chunk : Type 0 where
  pub text : Bytes
  pub left : Bytes
  pub eof : Bool

unfoldable pub fgets : ℕ → Bytes → Chunk
fgets zero file = record { text = []; left = file; eof = false }
fgets (suc n) [] = record { text = []; left = []; eof = true }
fgets (suc n) (c ∷ file) =
    let more = fgets n file in
    if c == b'\n'
    then record { text = c ∷ []; left = file; eof = false }
    else record more { text = c ∷ more.text }

-- The bytes of a buffer that `strlen` counts.
unfoldable pub until_nul : Bytes → Bytes
until_nul [] = []
until_nul (c ∷ cs) = if c == 0 then [] else c ∷ until_nul cs

-- `while (!feof(resource))`, for `n` rounds at most: the chunk read last is sent and the next one
-- is read.
unfoldable pub send_chunks : ℕ → Chunk → H (Unit {0})
send_chunks zero k c = running c
send_chunks (suc n) k c =
    let rest = send_chunks n (fgets 1023 k.left) (send (until_nul k.text) c) in
    if k.eof then returned tt c else rest

unfoldable pub send_file : Bytes → H (Unit {0})
send_file file = send_chunks (length file + 2) (fgets 1023 file)

-- The same loop where no read meets the end, for `n` rounds.
unfoldable pub send_endless : ℕ → (ℕ → Bytes) → H (Unit {0})
send_endless zero reads c = running c
send_endless (suc n) reads c = send_endless n (λ i. reads (suc i)) (send (until_nul (reads 0)) c)

unfoldable pub send_resource : ℕ → File → H (Unit {0})
send_resource patience (ending file) = send_file file
send_resource patience (endless reads) = send_endless patience reads

-- The buffer of a handler when it starts: "A".
abbrev pub fresh_buf : Bytes → Bytes
fresh_buf stack = b'A' ∷ 0 ∷ drop 2 stack

-- The handlers read and discard headers: from one pending line, as `numchars` is 1.
unfoldable pub skip_headers : Bytes → H (Unit {0})
skip_headers stack c =
    elim (discard_headers (length c.input + 2)
      (record { numchars = 1; buf = fresh_buf stack; rest = c.input })) [
        | none ↦ running c
        | some g ↦ returned tt (record c { input = g.rest })
      ]

-- Behind the headers. A file that cannot be opened is a null pointer, which goes on to `fclose`.
unfoldable pub serve_opened : ℕ → Option File → H (Unit {0})
serve_opened patience none c = fault (not_found c)
serve_opened patience (some file) c = send_resource patience file (headers c)

unfoldable pub serve_file : Host → Bytes → H (Unit {0})
serve_file host filename = do
  skip_headers host.stack_buf
  serve_opened host.patience (host.fopen filename)
