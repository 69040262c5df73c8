-- ===== src/Web/GetLine/Headers.antt =====
-- The header lines of a request, and the loop that discards them.
use telebra.Base.{
  ℕ, zero, suc, ◌+◌, ◌-◌, ◌≤◌, ◌<◌, ◌≡◌, ◌≢◌, inl, inr, refl, ap, ◌∙◌, true, false, some, List, [],
  ◌∷◌, ◌++◌, arith, Bool-cases, Bytes, length, drop, length-append, ne→not_==, All, append_assoc,
  get_or,
}
use telebra.Web.GetLine.{
  after_cr, line_byte, read_line, Got, get_line, more_headers, discard_headers,
}
use telebra.Web.GetLine.Lines.{get_line-progress}

discard_headers_done :
    (n : ℕ) (g : Got) → more_headers g ≡ false → 0 < n → discard_headers n g ≡ some g
unfolding discard_headers
discard_headers_done zero g h lt = absurd (omega arith)
discard_headers_done (suc n) g h lt = rw h

discard_headers_step :
    (n : ℕ) (g : Got)
    → more_headers g ≡ true
    → discard_headers (suc n) g ≡ discard_headers n (get_line g.rest g.buf 1024)
unfolding discard_headers
discard_headers_step n g h = rw h

-- With two rounds more than there are bytes left to read, the loop that discards headers ends by its
-- own test, and the input has not grown.
pub discard_headers_total :
    (n : ℕ) (g : Got)
    → length g.rest + 1 < n
    → (h : Got) × (discard_headers n g ≡ some h)
      × (more_headers h ≡ false)
      × (length h.rest ≤ length g.rest)
unfolding discard_headers
discard_headers_total zero g lt = absurd (omega arith)
discard_headers_total (suc n) g lt =
    let next = get_line g.rest g.buf 1024 in
    elim (Bool-cases (more_headers g)) [
      | inl more ↦ elim (get_line-progress g.rest g.buf 1024 (omega arith)) [
        | inl (none_left, zero_read, stays) ↦
            let over : more_headers next ≡ false = rw zero_read refl in
            (
              next,
              rw more (discard_headers_done n next over (omega arith)),
              over,
              rw stays (omega arith),
            )
        | inr (read, shorter) ↦
            let (h, run, over, short) = discard_headers_total n next (omega arith) in
            (h, rw more run, over, omega arith)
      ]
      | inr over ↦ (g, rw over refl, over, omega arith)
    ]

-- The three line ends.
pub data Terminator : Type 0 where
  lf crlf cr : Terminator

abbrev pub terminator : Terminator → Bytes
terminator lf = b'\n' ∷ []
terminator crlf = b'\r' ∷ b'\n' ∷ []
terminator cr = b'\r' ∷ []

-- A bare carriage return is one only if no line feed follows.
abbrev pub Ends : Terminator → Bytes → Type 0
Ends cr rest = get_or rest 0 0 ≢ b'\n'
Ends _ rest = Unit

-- The text of a line: any bytes but the two that end one.
abbrev pub IsText : Bytes → Type 0
IsText = All (λ c. (c ≢ b'\n') × (c ≢ b'\r'))

read_terminator :
    (n : ℕ) (t : Terminator) (rest : Bytes)
    → Ends t rest
    → read_line (suc n) (terminator t ++ rest) ≡ (b'\n' ∷ [], rest)
unfolding read_line line_byte after_cr
read_terminator n lf rest h = refl
read_terminator n crlf rest h = refl
read_terminator n cr [] h = refl
read_terminator n cr (d ∷ rest) h = rw (ne→not_== d b'\n' h)

pub read_line_text :
    (n : ℕ) (text rest : Bytes) (t : Terminator)
    → IsText text
    → Ends t rest
    → length text < n
    → read_line n (text ++ (terminator t ++ rest)) ≡ (text ++ b'\n' ∷ [], rest)
unfolding read_line line_byte
read_line_text zero text rest t h e lt = absurd (omega arith)
read_line_text (suc n) [] rest t h e lt = read_terminator n t rest e
read_line_text (suc n) (c ∷ text) rest t h e lt = rw (ne→not_== c b'\r' h.0.1) (
    rw (ne→not_== c b'\n' h.0.0)
      (ap (λ p. (c ∷ p.0, p.1)) (read_line_text n text rest t h.1 e (omega arith))))

-- A line that fits the buffer is read whole, its end made one line feed, and reading goes on right
-- behind it, for each of the three line ends.
pub get_line_text :
    (text rest buf : Bytes) (t : Terminator) (size : ℕ)
    → IsText text
    → Ends t rest
    → length text + 2 ≤ size
    → get_line (text ++ (terminator t ++ rest)) buf size ≡ record {
      numchars = length text + 1;
      buf = text ++ b'\n' ∷ 0 ∷ drop (length text + 2) buf;
      rest = rest;
    }
unfolding get_line
get_line_text text rest buf t size h e lt =
    let n = length-append text (b'\n' ∷ []) in
    ground (
      arith,
      read_line_text (size - 1) text rest t h e (omega arith),
      n,
      append_assoc text (b'\n' ∷ []) (0 ∷ drop (length text + 2) buf),
    )

-- A header line: text with no NUL, and not empty.
abbrev pub IsHeader : Bytes → Type 0
IsHeader l = (l ≢ []) × IsText l × All (λ c. c ≢ 0) l × (length l + 2 ≤ 1024)

abbrev pub render_headers : List (Bytes × Terminator) → Bytes → Bytes
render_headers [] rest = rest
render_headers ((l, t) ∷ hs) rest = l ++ (terminator t ++ render_headers hs rest)

-- Where a header ends in a bare carriage return, what follows is no line feed.
abbrev pub WellEnded : List (Bytes × Terminator) → Bytes → Type 0
WellEnded [] rest = Unit
WellEnded ((l, t) ∷ hs) rest = IsHeader l × Ends t (render_headers hs rest) × WellEnded hs rest

pub header_is_more :
    (l stale : Bytes) (rest : Bytes)
    → IsHeader l
    → more_headers (record { numchars = length l + 1; buf = l ++ b'\n' ∷ 0 ∷ stale; rest = rest })
      ≡ true
header_is_more [] stale rest h = absurd (h.0 refl)
header_is_more (c ∷ []) stale rest h = ground arith
header_is_more (c ∷ d ∷ l) stale rest h = ground arith

-- From any line on that goes on, the loop skips the header lines and the blank line behind them,
-- and leaves exactly the body.
pub discard_headers_skips :
    (n : ℕ) (hs : List (Bytes × Terminator)) (t : Terminator) (body : Bytes) (g : Got)
    → more_headers g ≡ true
    → g.rest ≡ render_headers hs (terminator t ++ body)
    → WellEnded hs (terminator t ++ body)
    → Ends t body
    → length hs + 1 < n
    → (h : Got) × (discard_headers n g ≡ some h) × (h.rest ≡ body)
discard_headers_skips zero hs t body g m e w b lt = absurd (omega arith)
discard_headers_skips (suc n) [] t body g m e w b lt =
    let blank : Got = record { numchars = 1; buf = b'\n' ∷ 0 ∷ drop 2 g.buf; rest = body } in
    (
      blank,
      discard_headers_step n g m
          ∙ ap (discard_headers n) (
              ap (λ i. get_line i g.buf 1024) e
              ∙ get_line_text [] body g.buf t 1024 tt b (omega arith))
          ∙ discard_headers_done n blank refl (omega arith),
      refl,
    )
discard_headers_skips (suc n) ((l, s) ∷ hs) t body g m e w b lt =
    let after = render_headers hs (terminator t ++ body) in
    let next : Got = record {
      numchars = length l + 1;
      buf = l ++ b'\n' ∷ 0 ∷ drop (length l + 2) g.buf;
      rest = after;
    } in
    let (h, run, at) =
      discard_headers_skips n hs t body next (header_is_more l _ after w.0) refl w.2 b
        (omega arith) in
    (
      h,
      discard_headers_step n g m
          ∙ ap (discard_headers n) (
              ap (λ i. get_line i g.buf 1024) e
              ∙ get_line_text l after g.buf s 1024 w.0.1 w.1 w.0.3)
          ∙ run,
      at,
    )
