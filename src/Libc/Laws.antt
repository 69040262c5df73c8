-- ===== src/Libc/Laws.antt =====
-- Laws of the string functions.
use telebra.Base.{
  ℕ, ◌≡◌, ◌≢◌, ◌↔◌, refl, ap, ◌∙◌, true, some, [], ◌∷◌, ◌++◌, arith, ne→not_==, Bytes, All, ==_refl,
}
use telebra.Libc.{c_str, str_eq, skip_delimiter, split_at, strtok}

-- A text without NUL, terminated, is the string that stands in the buffer.
pub c_str-append : (t rest : Bytes) → All (λ c. c ≢ 0) t → c_str (t ++ 0 ∷ rest) ≡ some t
unfolding c_str
c_str-append [] rest h = refl
c_str-append (c ∷ t) rest h = rw (ne→not_== c 0 h.0) (rw (c_str-append t rest h.1, c_str))

pub str_eq_iff : (a b : Bytes) → (str_eq a b ≡ true) ↔ (a ≡ b)
unfolding str_eq
str_eq_iff [] [] = ground arith
str_eq_iff [] (y ∷ b) = ground arith
str_eq_iff (x ∷ a) [] = ground arith
str_eq_iff (x ∷ a) (y ∷ b) = ground (arith, str_eq_iff a b)

pub split_at-append :
    (d : ℕ) (t rest : Bytes) → All (λ c. c ≢ d) t → split_at d (t ++ d ∷ rest) ≡ (t, rest)
unfolding split_at
split_at-append d [] rest h = rw (==_refl d)
split_at-append d (c ∷ t) rest h = rw (ne→not_== c d h.0, split_at-append d t rest h.1)

pub split_at_last : (d : ℕ) (t : Bytes) → All (λ c. c ≢ d) t → split_at d t ≡ (t, [])
unfolding split_at
split_at_last d [] h = refl
split_at_last d (c ∷ t) h = rw (ne→not_== c d h.0, split_at_last d t h.1)

skip_delimiter_ne : (d c : ℕ) (t : Bytes) → c ≢ d → skip_delimiter d (c ∷ t) ≡ c ∷ t
unfolding skip_delimiter
skip_delimiter_ne d c t h = rw (ne→not_== c d h)

strtok_found :
    (d : ℕ) (s : Bytes) (c : ℕ) (t : Bytes)
    → skip_delimiter d s ≡ c ∷ t
    → strtok d s ≡ some (split_at d (c ∷ t))
unfolding strtok
strtok_found d s c t e = rw (e, strtok)

-- A token of at least one byte in front of a delimiter.
pub strtok-append :
    (d c : ℕ) (t rest : Bytes)
    → c ≢ d
    → All (λ x. x ≢ d) t
    → strtok d ((c ∷ t) ++ d ∷ rest) ≡ some (c ∷ t, rest)
strtok-append d c t rest h hs =
    strtok_found d _ _ _ (skip_delimiter_ne d c (t ++ d ∷ rest) h)
    ∙ ap some (split_at-append d (c ∷ t) rest (h, hs))

-- The last token.
pub strtok_last :
    (d c : ℕ) (t : Bytes) → c ≢ d → All (λ x. x ≢ d) t → strtok d (c ∷ t) ≡ some (c ∷ t, [])
strtok_last d c t h hs =
    strtok_found d _ _ _ (skip_delimiter_ne d c t h) ∙ ap some (split_at_last d (c ∷ t) (h, hs))
