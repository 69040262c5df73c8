-- ===== src/Web/Cgi/Headers.antt =====
-- The content length that `execute_cgi` takes from the headers of a POST.
use telebra.Base.{
  ℕ, zero, suc, ◌+◌, ◌-◌, ◌*◌, ◌≤◌, ◌<◌, ◌≡◌, ◌≢◌, refl, sym, ap, ◌∙◌, Bool, true, false, Option,
  none, some, [], ◌∷◌, ◌++◌, append_assoc, arith, if◌then◌else◌, ==_iff, Bool-cases, inl, inr,
  dec_lt, Bytes, length, set, set-append, drop-append, All-append, take, take-append, drop, All,
  All-split, append-nil, codes, ℤ, pos, length-append,
}
use telebra.Libc.{
  c_str, str_case_eq, to_lower, is_space, skip_spaces, digits_value, signed_value, atoi,
}
use telebra.Libc.Laws.{c_str-append}
use telebra.Web.Cgi.{is_content_length, header_length, overwrite}

abbrev pub name : Bytes
name = codes "Content-Length:"

-- A line feed, a NUL and what is behind them do not count for `atoi`.
digits_value-append :
    (acc : ℕ) (r stale : Bytes) → digits_value acc (r ++ b'\n' ∷ stale) ≡ digits_value acc r
unfolding digits_value
digits_value-append acc [] stale = refl
digits_value-append acc (c ∷ r) stale = rw (digits_value-append (acc * 10 + (c - b'0')) r stale)

signed_value-append :
    (c : ℕ) (r stale : Bytes) → signed_value (c ∷ (r ++ b'\n' ∷ stale)) ≡ signed_value (c ∷ r)
unfolding signed_value
signed_value-append c r stale =
    rw (digits_value-append 0 r stale, digits_value-append 0 (c ∷ r) stale)

atoi-append : (r stale : Bytes) → atoi (r ++ b'\n' ∷ 0 ∷ stale) ≡ atoi r
unfolding atoi skip_spaces
atoi-append [] stale = unfold is_space signed_value digits_value in refl
atoi-append (c ∷ r) stale = elim (Bool-cases (is_space c)) [
  | inl space ↦ rw space (atoi-append r stale)
  | inr other ↦ rw other (signed_value-append c r (0 ∷ stale))
]

str_case_eq_last :
    (a b : Bytes) (c d : ℕ)
    → str_case_eq (a ++ c ∷ []) (b ++ d ∷ []) ≡ true
    → to_lower c ≡ to_lower d
unfolding str_case_eq
str_case_eq_last [] [] c d h = ground (arith, ==_iff (to_lower c) (to_lower d))
str_case_eq_last [] (y ∷ []) c d h = ground arith
str_case_eq_last [] (y ∷ z ∷ b) c d h = ground arith
str_case_eq_last (x ∷ []) [] c d h = ground arith
str_case_eq_last (x ∷ w ∷ a) [] c d h = ground arith
str_case_eq_last (x ∷ a) (y ∷ b) c d h = ground (arith, str_case_eq_last a b c d)

pub length-str_case_eq : (a b : Bytes) → str_case_eq a b ≡ true → length a ≡ length b
unfolding str_case_eq
length-str_case_eq [] [] h = refl
length-str_case_eq [] (y ∷ b) h = cc
length-str_case_eq (x ∷ a) [] h = cc
length-str_case_eq (x ∷ a) (y ∷ b) h = ground (arith, length-str_case_eq a b)

-- What one header line says of the content length.
abbrev pub line_length : Bytes → Option ℤ
line_length l = if str_case_eq (take 15 l) name then some (atoi (drop 16 l)) else none

-- A NUL written at or behind a NUL leaves the string in front of it.
set_behind :
    (m stale : Bytes) (n : ℕ)
    → length m ≤ n
    → (stale' : Bytes) × (set (m ++ 0 ∷ stale) n 0 ≡ m ++ 0 ∷ stale')
set_behind [] stale zero h = (stale, refl)
set_behind [] stale (suc n) h = (set stale n 0, refl)
set_behind (c ∷ m) stale zero h = absurd (omega arith)
set_behind (c ∷ m) stale (suc n) h =
    let (stale', e) = set_behind m stale n (omega arith) in (stale', ap (λ l. c ∷ l) e)

-- A short line is not the name: its line feed is still there.
short_line :
    (l stale : Bytes)
    → All (λ c. c ≢ 0) l
    → length l < 15
    → c_str (set (l ++ b'\n' ∷ 0 ∷ stale) 15 0) ≡ some (l ++ b'\n' ∷ [])
short_line l stale h lt =
    let (stale', e) =
      set_behind (l ++ b'\n' ∷ []) stale 15 (omega (arith, length-append l (b'\n' ∷ []))) in
    ap (λ m. c_str (set m 15 0)) (sym (append_assoc l (b'\n' ∷ []) (0 ∷ stale)))
    ∙ ap c_str e
    ∙ c_str-append (l ++ b'\n' ∷ []) stale' (All-append _ l (b'\n' ∷ []) h (omega arith))

-- The first 15 bytes of a longer line, cut off, and what is behind them.
long_line :
    (p : Bytes) (b : ℕ) (rest : Bytes)
    → All (λ c. c ≢ 0) p
    → length p ≡ 15
    → (c_str (set (p ++ b ∷ rest) 15 0) ≡ some p) × (drop 16 (set (p ++ b ∷ rest) 15 0) ≡ rest)
long_line p b rest h e =
    let cut = ap (λ n. set (p ++ b ∷ rest) n 0) (sym e) ∙ set-append p rest b 0 in
    (
      ap c_str cut ∙ c_str-append p rest h,
      ap (drop 16) cut ∙ ap (λ n. drop n (p ++ 0 ∷ rest)) (ap suc (sym e)) ∙ drop-append p rest 0,
    )

take_all : (n : ℕ) (l : Bytes) → length l ≤ n → take n l ≡ l
take_all zero [] h = refl
take_all zero (c ∷ l) h = absurd (omega arith)
take_all (suc n) [] h = refl
take_all (suc n) (c ∷ l) h = ap (λ t. c ∷ t) (take_all n l (omega arith))

take-append_of_length : (p rest : Bytes) (n : ℕ) → length p ≡ n → take n (p ++ rest) ≡ p
take-append_of_length p rest n e = ap (λ k. take k (p ++ rest)) (sym e) ∙ take-append p rest

-- The 15 bytes at the front of a line that has as many.
split_line :
    (n : ℕ) (l : Bytes) → n ≤ length l → (p : Bytes) × (r : Bytes) × (l ≡ p ++ r) × (length p ≡ n)
split_line zero l h = ([], l, refl, refl)
split_line (suc n) [] h = absurd (omega arith)
split_line (suc n) (c ∷ l) h =
    let (p, r, e, k) = split_line n l (omega arith) in (c ∷ p, r, ap (λ t. c ∷ t) e, ap suc k)

abbrev pub keep : ℤ → Option ℤ → ℤ
keep len none = len
keep len (some v) = overwrite len v

not_name_short : (l : Bytes) → str_case_eq (l ++ b'\n' ∷ []) name ≡ false
not_name_short l = elim (Bool-cases (str_case_eq (l ++ b'\n' ∷ []) name)) [
  | inl same ↦ absurd (omega (arith, str_case_eq_last l (codes "Content-Length") b'\n' b':' same))
  | inr other ↦ other
]

length-take-le : (n : ℕ) (l : Bytes) → length (take n l) ≤ length l
length-take-le zero l = omega arith
length-take-le (suc n) [] = omega arith
length-take-le (suc n) (c ∷ l) = omega (arith, length-take-le n l)

not_name-take : (l : Bytes) → length l < 15 → str_case_eq (take 15 l) name ≡ false
not_name-take l lt = elim (Bool-cases (str_case_eq (take 15 l) name)) [
  | inl same ↦ absurd (omega (arith, length-str_case_eq (take 15 l) name same, length-take-le 15 l))
  | inr other ↦ other
]

drop_all : (n : ℕ) (l : Bytes) → length l ≤ n → drop n l ≡ []
drop_all zero [] h = refl
drop_all zero (c ∷ l) h = absurd (omega arith)
drop_all (suc n) [] h = refl
drop_all (suc n) (c ∷ l) h = drop_all n l (omega arith)

header_length_cut :
    (len : ℤ) (cut t : Bytes)
    → c_str cut ≡ some t
    → header_length len cut
      ≡ (if str_case_eq t name then overwrite len (atoi (drop 16 cut)) else len)
unfolding header_length is_content_length
header_length_cut len cut t e = rw (e, is_content_length)

keep-if :
    (len v : ℤ) (b : Bool)
    → (if b then overwrite len v else len) ≡ keep len (if b then some v else none)
keep-if len v true = refl
keep-if len v false = refl

header_length_long :
    (len : ℤ) (p r stale : Bytes)
    → All (λ c. c ≢ 0) p
    → length p ≡ 15
    → header_length len (set ((p ++ r) ++ b'\n' ∷ 0 ∷ stale) 15 0) ≡ keep len (line_length (p ++ r))
header_length_long len p [] stale h e =
    let (text, behind) = long_line p b'\n' (0 ∷ stale) h e in
    rw append-nil (
      header_length_cut len _ p text
      ∙ rw (behind, take_all 15 p (omega arith), drop_all 16 p (omega arith))
          (unfold atoi skip_spaces signed_value digits_value is_space in
            keep-if len (pos 0) (str_case_eq p name)))
header_length_long len p (x ∷ r) stale h e =
    let (text, behind) = long_line p x (r ++ b'\n' ∷ 0 ∷ stale) h e in
    rw (append_assoc p (x ∷ r) (b'\n' ∷ 0 ∷ stale)) (
      header_length_cut len _ p text
      ∙ rw
          (
            behind,
            atoi-append r stale,
            take-append_of_length p (x ∷ r) 15 e,
            ap (λ n. drop (suc n) (p ++ x ∷ r)) (sym e) ∙ drop-append p r x,
          )
          (keep-if len (atoi r) (str_case_eq p name)))

-- One round of the loop over the headers of a POST, on a line without NUL, with its line feed and
-- anything behind that in the buffer: a content length that fits an `int` becomes `atoi` of what follows the line's
-- first 16 bytes if the first 15 are "Content-Length:", in any case of letters, and stays otherwise.
pub header_length-line_length :
    (len : ℤ) (l stale : Bytes)
    → All (λ c. c ≢ 0) l
    → header_length len (set (l ++ b'\n' ∷ 0 ∷ stale) 15 0) ≡ keep len (line_length l)
header_length-line_length len l stale h = elim (dec_lt (length l) 15) [
  | yes lt ↦
      header_length_cut len _ (l ++ b'\n' ∷ []) (short_line l stale h lt)
      ∙ rw (not_name_short l, not_name-take l lt)
  | no ge ↦
      let (p, r, e, k) = split_line 15 l (omega arith) in
      let clean : All (λ c. c ≢ 0) p × All (λ c. c ≢ 0) r =
        All-split (λ c. c ≢ 0) p r (rw e at h) in
      rw e (header_length_long len p r stale clean.0 k)
]
