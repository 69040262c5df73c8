-- ===== src/Web/Cgi/Declared.antt =====
-- The loop over the header lines of a POST.
use telebra.Base.{
  Bool, Bool-cases, inl, inr, not, ◌&&◌, Option, none, take, get_or, All, fits_int, if◌then◌else◌,
  ℕ, zero, suc, ◌+◌, ◌<◌, ◌≡◌, refl, ap, ◌∙◌, true, false, some, List, [], ◌∷◌, ◌++◌, arith, Bytes,
  length, set, drop, ℤ,
}
use telebra.Web.GetLine.{Got, get_line, more_headers}
use telebra.Web.GetLine.Headers.{
  Terminator, terminator, Ends, render_headers, WellEnded, header_is_more, get_line_text,
}
use telebra.Web.Cgi.{header_length, post_headers}
use telebra.Libc.{str_case_eq, is_space, atoi, skip_spaces}
use telebra.Web.Cgi.Headers.{name, line_length, keep, header_length-line_length}

-- The content length that these header lines declare: that of the last line that names one, or the
-- length so far.
abbrev pub declared : ℤ → List (Bytes × Terminator) → ℤ
declared len [] = len
declared len ((l, t) ∷ hs) = declared (keep len (line_length l)) hs

post_headers_done :
    (n : ℕ) (len : ℤ) (g : Got)
    → more_headers g ≡ false
    → 0 < n
    → post_headers n len g ≡ some (len, g)
unfolding post_headers
post_headers_done zero len g h lt = absurd (omega arith)
post_headers_done (suc n) len g h lt = rw h

post_headers_step :
    (n : ℕ) (len : ℤ) (g : Got)
    → more_headers g ≡ true
    → post_headers (suc n) len g ≡ (
        let cut = set g.buf 15 0 in
        post_headers n (header_length len cut) (get_line g.rest cut 1024))
unfolding post_headers
post_headers_step n len g h = rw h

-- The loop over the headers of a POST, from a header line on and with two rounds more than there are
-- lines to read: it ends at the blank line, leaves exactly the content behind it, and has the
-- content length that this line and the lines behind it declare, the last one that does.
pub post_headers-declared :
    (n : ℕ) (len : ℤ) (l stale : Bytes) (s : Terminator) (hs : List (Bytes × Terminator))
    (t : Terminator) (content : Bytes)
    → WellEnded ((l, s) ∷ hs) (terminator t ++ content)
    → Ends t content
    → length hs + 2 < n
    → (h : Got) × (post_headers n len (record {
      numchars = length l + 1;
      buf = l ++ b'\n' ∷ 0 ∷ stale;
      rest = render_headers hs (terminator t ++ content);
    })
        ≡ some (declared len ((l, s) ∷ hs), h))
      × (h.rest ≡ content)
post_headers-declared zero len l stale s hs t content w b lt = absurd (omega arith)
post_headers-declared (suc n) len l stale s [] t content w b lt =
    let cut = set (l ++ b'\n' ∷ 0 ∷ stale) 15 0 in
    let blank : Got = record { numchars = 1; buf = b'\n' ∷ 0 ∷ drop 2 cut; rest = content } in
    (
      blank,
      post_headers_step n len
            (record {
              numchars = length l + 1;
              buf = l ++ b'\n' ∷ 0 ∷ stale;
              rest = terminator t ++ content;
            })
            (header_is_more l stale (terminator t ++ content) w.0)
          ∙ ap (post_headers n (header_length len cut))
              (get_line_text [] content cut t 1024 tt b (omega arith))
          ∙ post_headers_done n (header_length len cut) blank refl (omega arith)
          ∙ ap (λ v. some (v, blank)) (header_length-line_length len l stale w.0.2),
      refl,
    )
post_headers-declared (suc n) len l stale s ((m, r) ∷ hs) t content w b lt =
    let cut = set (l ++ b'\n' ∷ 0 ∷ stale) 15 0 in
    let after = render_headers hs (terminator t ++ content) in
    let (h, run, at) =
      post_headers-declared n (header_length len cut) m (drop (length m + 2) cut) r hs t content w.2
        b (omega arith) in
    (
      h,
      post_headers_step n len
            (record {
              numchars = length l + 1;
              buf = l ++ b'\n' ∷ 0 ∷ stale;
              rest = m ++ (terminator r ++ after);
            })
            (header_is_more l stale (m ++ (terminator r ++ after)) w.0)
          ∙ ap (post_headers n (header_length len cut))
              (get_line_text m after cut r 1024 w.2.0.1 w.2.1 w.2.0.3)
          ∙ run
          ∙ ap (λ v. some (declared v ((m, r) ∷ hs), h))
              (header_length-line_length len l stale w.0.2),
      at,
    )

-- The text of a header line behind the colon of "Content-Length:", if it is such a line, as a number.
abbrev pub announces : Bytes → Option ℤ
announces l = if str_case_eq (take 15 l) name then some (atoi (drop 15 l)) else none

-- A space stands behind the colon, and the number fits an `int`, where the line is such a line.
pub record IsReadable (l : Bytes) : Type 0 where
  pub spaced : (str_case_eq (take 15 l) name && not (is_space (get_or l 15 b' '))) ≡ false
  pub small : (str_case_eq (take 15 l) name && not (fits_int (atoi (drop 15 l)))) ≡ false

-- The number in the last such line, or `len` if there is none.
abbrev pub announced : ℤ → List (Bytes × Terminator) → ℤ
announced len [] = len
announced len ((l, t) ∷ hs) = announced (elim (announces l) [ none ↦ len | some v ↦ v ]) hs

-- White space in front of a number does not count.
atoi-drop_space :
    (n : ℕ) (l : Bytes)
    → is_space (get_or l n b' ') ≡ true
    → atoi (drop (suc n) l) ≡ atoi (drop n l)
unfolding atoi skip_spaces
atoi-drop_space zero [] h = refl
atoi-drop_space zero (c ∷ l) h = rw h refl
atoi-drop_space (suc n) [] h = refl
atoi-drop_space (suc n) (c ∷ l) h = atoi-drop_space n l h

not-false : (b : Bool) → not b ≡ false → b ≡ true
not-false true h = refl
not-false false h = cc

line_length-announces :
    (len : ℤ) (l : Bytes)
    → IsReadable l
    → fits_int len ≡ true
    → (keep len (line_length l) ≡ elim (announces l) [ none ↦ len | some v ↦ v ])
      × (fits_int (keep len (line_length l)) ≡ true)
line_length-announces len l r f = elim (Bool-cases (str_case_eq (take 15 l) name)) [
  | inl named ↦
      let space : is_space (get_or l 15 b' ') ≡ true =
        not-false (is_space (get_or l 15 b' ')) (rw named at r.spaced) in
      let same = atoi-drop_space 15 l space in
      let small : fits_int (atoi (drop 15 l)) ≡ true =
        not-false (fits_int (atoi (drop 15 l))) (rw named at r.small) in
      rw (named, f) (same, ap fits_int same ∙ small)
  | inr other ↦ rw other (refl, f)
]

announced-declared :
    (len : ℤ) (hs : List (Bytes × Terminator))
    → All (λ h. IsReadable h.0) hs
    → fits_int len ≡ true
    → declared len hs ≡ announced len hs
announced-declared len [] r f = refl
announced-declared len ((l, t) ∷ hs) r f =
    let (same, fits) = line_length-announces len l r.0 f in
    announced-declared (keep len (line_length l)) hs r.1 fits ∙ ap (λ v. announced v hs) same

-- The loop over the headers of a POST, from a header line on and with two rounds more than there are
-- lines to read, where each Content-Length line has a white-space character behind its colon and a
-- number that fits an `int`: the loop ends at the blank line, leaves exactly the content behind it,
-- and has the number behind the colon of the last such line, or the content length from before if
-- there is none.
pub post_headers-announced :
    (n : ℕ) (len : ℤ) (l stale : Bytes) (s : Terminator) (hs : List (Bytes × Terminator))
    (t : Terminator) (content : Bytes)
    → WellEnded ((l, s) ∷ hs) (terminator t ++ content)
    → Ends t content
    → length hs + 2 < n
    → All (λ h. IsReadable h.0) ((l, s) ∷ hs)
    → fits_int len ≡ true
    → (h : Got) × (post_headers n len (record {
      numchars = length l + 1;
      buf = l ++ b'\n' ∷ 0 ∷ stale;
      rest = render_headers hs (terminator t ++ content);
    })
        ≡ some (announced len ((l, s) ∷ hs), h))
      × (h.rest ≡ content)
post_headers-announced n len l stale s hs t content w b lt r f =
    let (h, run, at) = post_headers-declared n len l stale s hs t content w b lt in
    (h, run ∙ ap (λ v. some (v, h)) (announced-declared len ((l, s) ∷ hs) r f), at)
