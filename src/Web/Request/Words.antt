-- ===== src/Web/Request/Words.antt =====
-- The method and the URL that `accept_request` takes from the first line.
use telebra.Base.{
  ℕ, zero, suc, ◌<◌, ◌≡◌, ◌≢◌, refl, ap, true, false, none, some, [], ◌∷◌, ◌++◌, arith, ne→not_==,
  Bytes, length, All,
}
use telebra.Libc.{is_space}
use telebra.Web.File.{until_nul}
use telebra.Web.Request.{request_line, copy_word, skip_space, split_query}

-- A word of the line: no white space and no NUL.
abbrev pub IsWord : Bytes → Type 0
IsWord = All (λ c. (is_space c ≡ false) × (c ≢ 0))

copy_word_word :
    (n : ℕ) (w rest : Bytes) (x : ℕ)
    → IsWord w
    → is_space x ≡ true
    → length w < n
    → copy_word n (w ++ x ∷ rest) ≡ (w, x ∷ rest)
unfolding copy_word
copy_word_word zero w rest x h e lt = absurd (omega arith)
copy_word_word (suc n) [] rest x h e lt = rw e refl
copy_word_word (suc n) (c ∷ w) rest x h e lt =
    rw h.0.0 (ap (λ p. (c ∷ p.0, p.1)) (copy_word_word n w rest x h.1 e (omega arith)))

until_nul_word : (w : Bytes) → IsWord w → until_nul w ≡ w
unfolding until_nul
until_nul_word [] h = refl
until_nul_word (c ∷ w) h = rw (ne→not_== c 0 h.0.1) (ap (λ v. c ∷ v) (until_nul_word w h.1))

abbrev pub IsGap : Bytes → Type 0
IsGap = All (λ c. is_space c ≡ true)

skip_space_gap :
    (gap w rest : Bytes)
    → IsGap gap
    → w ≢ []
    → IsWord w
    → skip_space (gap ++ (w ++ rest)) ≡ w ++ rest
unfolding skip_space
skip_space_gap [] [] rest h ne k = absurd (ne refl)
skip_space_gap [] (c ∷ w) rest h ne k = rw k.0.0 refl
skip_space_gap (x ∷ gap) w rest h ne k = rw h.0 (skip_space_gap gap w rest h.1 ne k)

-- A line of two words of at most 253 bytes, with white space behind each, gives these as method and
-- URL, whatever follows.
pub request_line_words :
    (m u gap rest : Bytes) (x y : ℕ)
    → IsWord m
    → IsWord u
    → u ≢ []
    → IsGap (x ∷ gap)
    → is_space y ≡ true
    → length m < 254
    → length u < 254
    → request_line (m ++ x ∷ (gap ++ (u ++ y ∷ rest))) ≡ record { method = m; url = u }
unfolding request_line
request_line_words m u gap rest x y hm hu ne hg hy lm lu =
    rw
      (
        copy_word_word 254 m (gap ++ (u ++ y ∷ rest)) x hm hg.0 lm,
        skip_space_gap (x ∷ gap) u (y ∷ rest) hg ne hu,
        copy_word_word 254 u rest y hu hy lu,
        until_nul_word m hm,
        until_nul_word u hu,
      )
      refl

-- A URL without a '?' has no query.
pub split_query-none : (u : Bytes) → All (λ c. c ≢ b'?') u → split_query u ≡ (u, none)
unfolding split_query
split_query-none [] h = refl
split_query-none (c ∷ u) h =
    rw (ne→not_== c b'?' h.0) (ap (λ p. (c ∷ p.0, p.1)) (split_query-none u h.1))

-- The query is what follows the first '?'.
pub split_query-some :
    (u q : Bytes) → All (λ c. c ≢ b'?') u → split_query (u ++ b'?' ∷ q) ≡ (u, some q)
unfolding split_query
split_query-some [] q h = refl
split_query-some (c ∷ u) q h =
    rw (ne→not_== c b'?' h.0) (ap (λ p. (c ∷ p.0, p.1)) (split_query-some u q h.1))
