-- ===== src/Web/GetLine/Lines.antt =====
-- What `get_line` reads.
use telebra.Base.{
  ℕ, zero, suc, ◌+◌, ◌-◌, ◌≤◌, ◌<◌, ◌≡◌, ◌≢◌, ◌⊎◌, inl, inr, refl, ap, Bool, true, false, ◌&&◌, [],
  ◌∷◌, ◌++◌, arith, ◌==◌, if◌then◌else◌, Bytes, length, drop, length-append, length-drop, ==_iff,
  ne→not_==, ℕ_discrete,
}
use telebra.Web.GetLine.{after_cr, line_byte, read_line, get_line}

-- The text with each of its three line ends (LF, CR, CR LF) made a line feed; the flag says that
-- the byte before was a carriage return.
abbrev normal : Bool → Bytes → Bytes
normal after [] = []
normal after (c ∷ cs) =
    let rest = normal (c == b'\r') cs in
    if after && c == b'\n' then rest else (if c == b'\r' then b'\n' else c) ∷ rest

abbrev pub unix_lines : Bytes → Bytes
unix_lines = normal false

normal-after_cr :
    (cs : Bytes) → b'\n' ∷ normal true cs ≡ (after_cr cs).0 ∷ unix_lines (after_cr cs).1
unfolding after_cr
normal-after_cr [] = refl
normal-after_cr (d ∷ cs) = ground arith

normal-line_byte :
    (c : ℕ) (cs : Bytes) → unix_lines (c ∷ cs) ≡ (line_byte c cs).0 ∷ unix_lines (line_byte c cs).1
unfolding line_byte
normal-line_byte c cs = ground (arith, normal-after_cr cs)

-- What is read and what is left are the whole input, line ends aside.
read_line-unix_lines :
    (n : ℕ) (input : Bytes)
    → unix_lines input ≡ (read_line n input).0 ++ unix_lines (read_line n input).1
unfolding read_line
read_line-unix_lines zero input = refl
read_line-unix_lines (suc n) [] = refl
read_line-unix_lines (suc n) (c ∷ cs) =
    ground (arith, normal-line_byte c cs, read_line-unix_lines n (line_byte c cs).1)

-- A line: no line feed but in the last place.
abbrev pub IsLine : Bytes → Type 0
IsLine [] = Unit
IsLine (c ∷ []) = Unit
IsLine (c ∷ d ∷ cs) = (c ≢ b'\n') × IsLine (d ∷ cs)

IsLine-cons : (c : ℕ) (cs : Bytes) → c ≢ b'\n' → IsLine cs → IsLine (c ∷ cs)
IsLine-cons c [] h p = tt
IsLine-cons c (d ∷ cs) h p = (h, p)

read_line-IsLine : (n : ℕ) (input : Bytes) → IsLine (read_line n input).0
unfolding read_line
read_line-IsLine zero input = tt
read_line-IsLine (suc n) [] = tt
read_line-IsLine (suc n) (c ∷ cs) =
    let b = (line_byte c cs).0 in
    let left = (line_byte c cs).1 in
    elim (ℕ_discrete b b'\n') [
      | yes end ↦ rw ((==_iff b b'\n').1 end) tt
      | no ne ↦
          rw (ne→not_== b b'\n' ne)
            (IsLine-cons b (read_line n left).0 ne (read_line-IsLine n left))
    ]

abbrev pub ends_line : Bytes → Bool
ends_line [] = false
ends_line (c ∷ []) = c == b'\n'
ends_line (c ∷ d ∷ cs) = ends_line (d ∷ cs)

ends_line-cons : (c : ℕ) (cs : Bytes) → ends_line cs ≡ true → ends_line (c ∷ cs) ≡ true
ends_line-cons c [] h = cc
ends_line-cons c (d ∷ cs) h = h

-- The loop fills the room, or reaches a line feed, or has no more input.
read_line_end :
    (n : ℕ) (input : Bytes)
    → (length (read_line n input).0 ≤ n)
      × ((length (read_line n input).0 ≡ n)
          ⊎ (ends_line (read_line n input).0 ≡ true)
          ⊎ ((read_line n input).1 ≡ []))
unfolding read_line
read_line_end zero input = (omega arith, inl refl)
read_line_end (suc n) [] = (omega arith, inr (inr refl))
read_line_end (suc n) (c ∷ cs) =
    let b = (line_byte c cs).0 in
    let left = (line_byte c cs).1 in
    elim (ℕ_discrete b b'\n') [
      | yes end ↦ rw ((==_iff b b'\n').1 end) (omega arith, inr (inl ((==_iff b b'\n').1 end)))
      | no ne ↦ rw (ne→not_== b b'\n' ne) (
          let (fits, how) = read_line_end n left in
          (
            omega arith,
            elim how [
              | inl full ↦ inl (ap suc full)
              | inr (inl e) ↦ inr (inl (ends_line-cons b (read_line n left).0 e))
              | inr (inr e) ↦ inr (inr e)
            ],
          ))
    ]

-- `get_line` on a buffer of `size` bytes, at least one: it stores a line, NUL-terminated and inside
-- the buffer, and returns its length; the line and what is left to read are the input, each CR, LF
-- and CR LF counted as one line feed, so none is lost, doubled or split; only the last byte
-- of the line can be a line feed; and the line stops short of `size - 1` bytes only at a line feed
-- or at the end of the input.
pub get_line-reads :
    (input buf : Bytes) (size : ℕ)
    → 0 < size
    → size ≤ length buf
    → let g = get_line input buf size in
      (line : Bytes) × (g.buf ≡ line ++ 0 ∷ drop (length line + 1) buf)
      × (g.numchars ≡ length line)
      × (length line + 1 ≤ size)
      × (length g.buf ≡ length buf)
      × (unix_lines input ≡ line ++ unix_lines g.rest)
      × IsLine line
      × ((length line + 1 ≡ size) ⊎ (ends_line line ≡ true) ⊎ (g.rest ≡ []))
unfolding get_line
get_line-reads input buf size pos fits =
    let line = (read_line (size - 1) input).0 in
    let (small, how) = read_line_end (size - 1) input in
    (
      line,
      refl,
      refl,
      omega arith,
      omega (
        arith,
        length-append line (0 ∷ drop (length line + 1) buf),
        length-drop (length line + 1) buf,
      ),
      read_line-unix_lines (size - 1) input,
      read_line-IsLine (size - 1) input,
      elim how [ inl full ↦ inl (omega arith) | inr other ↦ inr other ],
    )

length-line_byte : (c : ℕ) (cs : Bytes) → length (line_byte c cs).1 ≤ length cs
unfolding line_byte after_cr
length-line_byte c [] = ground arith
length-line_byte c (d ∷ cs) = ground arith

length-read_line : (n : ℕ) (input : Bytes) → length (read_line n input).1 ≤ length input
unfolding read_line
length-read_line zero input = omega arith
length-read_line (suc n) [] = omega arith
length-read_line (suc n) (c ∷ cs) =
    ground (arith, length-line_byte c cs, length-read_line n (line_byte c cs).1)

abbrev Progress : Bytes → Bytes × Bytes → Type 0
Progress input (line, left) =
    ((input ≡ []) × (length line ≡ 0) × (left ≡ []))
    ⊎ ((0 < length line) × (length left < length input))

read_line-Progress : (n : ℕ) (input : Bytes) → Progress input (read_line (suc n) input)
unfolding read_line
read_line-Progress n [] = inl (refl, refl, refl)
read_line-Progress n (c ∷ cs) =
    inr (ground arith, ground (arith, length-line_byte c cs, length-read_line n (line_byte c cs).1))

-- `get_line` returns 0 only at the end of the input, and otherwise takes at least one byte.
pub get_line-progress :
    (input buf : Bytes) (size : ℕ)
    → 1 < size
    → let g = get_line input buf size in
      ((input ≡ []) × (g.numchars ≡ 0) × (g.rest ≡ []))
      ⊎ ((0 < g.numchars) × (length g.rest < length input))
unfolding get_line
get_line-progress input buf size big =
    let e : size - 1 ≡ suc (size - 2) = omega arith in rw e (read_line-Progress (size - 2) input)
