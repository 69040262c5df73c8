-- ===== src/Libc.antt =====
-- What the program uses of the C library: strings in byte buffers, `strcmp` and `strcasecmp` as
-- tests for equality, `strtok`, `isspace`, `atoi`. A byte is a number below 256.
pub mod Laws
use telebra.Base.{
  ℕ, ◌+◌, ◌*◌, ◌-◌, Bool, true, false, ◌&&◌, ◌||◌, Option, none, some, List, [], ◌∷◌, ltb, leb,
  ◌==◌, if◌then◌else◌, Bytes, ℤ, pos, negate,
}

-- The string in a buffer: the bytes before the first NUL, or `none` if there is no NUL.
unfoldable pub c_str : Bytes → Option Bytes
c_str [] = none
c_str (c ∷ cs) =
    let rest : Option Bytes = elim (c_str cs) [ none ↦ none | some t ↦ some (c ∷ t) ] in
    if c == 0 then some [] else rest

-- `strcmp(a, b) == 0`
unfoldable pub str_eq : Bytes → Bytes → Bool
str_eq [] [] = true
str_eq [] (y ∷ b) = false
str_eq (x ∷ a) [] = false
str_eq (x ∷ a) (y ∷ b) = x == y && str_eq a b

-- `tolower` of the C locale
abbrev pub to_lower : ℕ → ℕ
to_lower c = if leb b'A' c && leb c b'Z' then c + 32 else c

-- `strcasecmp(a, b) == 0`
unfoldable pub str_case_eq : Bytes → Bytes → Bool
str_case_eq [] [] = true
str_case_eq [] (y ∷ b) = false
str_case_eq (x ∷ a) [] = false
str_case_eq (x ∷ a) (y ∷ b) = to_lower x == to_lower y && str_case_eq a b

-- `isspace` of the C locale: tab, line feed, vertical tab, form feed, carriage return, space.
unfoldable pub is_space : ℕ → Bool
is_space c = (leb 9 c && leb c 13) || c == 32

-- The text from the first byte on that is not the delimiter.
unfoldable pub skip_delimiter : ℕ → Bytes → Bytes
skip_delimiter d [] = []
skip_delimiter d (c ∷ cs) = if c == d then skip_delimiter d cs else c ∷ cs

-- The bytes before the next delimiter, and those behind it.
unfoldable pub split_at : ℕ → Bytes → Bytes × Bytes
split_at d [] = ([], [])
split_at d (c ∷ cs) = let (t, r) = split_at d cs in if c == d then ([], cs) else (c ∷ t, r)

-- One call of `strtok` with one delimiter, on a string or on what an earlier call left: the token
-- and what is left, or a null pointer.
unfoldable pub strtok : ℕ → Bytes → Option (Bytes × Bytes)
unfolding skip_delimiter split_at
strtok d s = elim (skip_delimiter d s) [ [] ↦ none | c ∷ cs ↦ some (split_at d (c ∷ cs)) ]

-- The value of the decimal digits at the front, behind those read so far.
unfoldable pub digits_value : ℕ → Bytes → ℕ
digits_value acc [] = acc
digits_value acc (c ∷ cs) =
    let more = digits_value (acc * 10 + (c - b'0')) cs in
    if leb b'0' c && leb c b'9' then more else acc

unfoldable pub skip_spaces : Bytes → Bytes
skip_spaces [] = []
skip_spaces (c ∷ cs) = if is_space c then skip_spaces cs else c ∷ cs

-- The sign of `atoi`, and the digits behind it.
unfoldable pub signed_value : Bytes → ℤ
signed_value [] = pos 0
signed_value (c ∷ cs) =
    if c == b'-'
    then negate (digits_value 0 cs)
    else if c == b'+'
    then pos (digits_value 0 cs)
    else pos (digits_value 0 (c ∷ cs))

-- `atoi`, where the value fits an `int`.
unfoldable pub atoi : Bytes → ℤ
atoi s = signed_value (skip_spaces s)
