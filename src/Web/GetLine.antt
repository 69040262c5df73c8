-- ===== src/Web/GetLine.antt =====
-- `get_line` of MotorDriver/httpd.c, and the loop that discards headers.
pub mod Lines
pub mod Headers
use telebra.Base.{
  ℕ, zero, suc, ◌+◌, ◌-◌, Bool, true, false, not, ◌&&◌, Option, none, some, [], ◌∷◌, ◌++◌, ltb,
  ◌==◌, if◌then◌else◌, Bytes, length, get_or, drop,
}

-- Behind a carriage return: the peeked byte is taken if it is a line feed.
unfoldable pub after_cr : Bytes → ℕ × Bytes
after_cr [] = (b'\n', [])
after_cr (d ∷ rest) = if d == b'\n' then (b'\n', rest) else (b'\n', d ∷ rest)

-- The byte that one round of the loop stores when `recv` takes `c`, and the input left.
unfoldable pub line_byte : ℕ → Bytes → ℕ × Bytes
line_byte c rest = if c == b'\r' then after_cr rest else (c, rest)

-- The loop with room for `n` more bytes: the bytes stored, and the input left. It ends at a line
-- feed, when the room is used up, and when `recv` fails.
unfoldable pub read_line : ℕ → Bytes → Bytes × Bytes
read_line zero input = ([], input)
read_line (suc n) [] = ([], [])
read_line (suc n) (c ∷ rest) =
    let b = (line_byte c rest).0 in
    let left = (line_byte c rest).1 in
    let (line, end) = read_line n left in if b == b'\n' then (b ∷ [], left) else (b ∷ line, end)

-- What `get_line` leaves: its result, the buffer, and the input.
pub record Got : Type 0 where
  pub numchars : ℕ
  pub buf : Bytes
  pub rest : Bytes

unfoldable pub get_line : Bytes → Bytes → ℕ → Got
get_line input buf size =
    let (line, left) = read_line (size - 1) input in
    record { numchars = length line; buf = line ++ 0 ∷ drop (length line + 1) buf; rest = left }

-- `strcmp("\n", buf) == 0`
abbrev pub is_blank : Bytes → Bool
is_blank buf = get_or buf 0 0 == b'\n' && get_or buf 1 0 == 0

-- The test of the loops over the header lines.
abbrev pub more_headers : Got → Bool
more_headers g = ltb 0 g.numchars && not (is_blank g.buf)

-- The loop that discards header lines, for `n` rounds at most; `none` means that these ran out.
unfoldable pub discard_headers : ℕ → Got → Option Got
discard_headers zero g = none
discard_headers (suc n) g =
    let rest = discard_headers n (get_line g.rest g.buf 1024) in
    if more_headers g then rest else some g
