-- ===== src/Web/Cgi/Content.antt =====
-- The content of a POST.
use telebra.Base.{
  sym, ◌-◌, ℕ, zero, suc, ◌+◌, ◌≤◌, ◌<◌, ◌≡◌, refl, ap, ◌∙◌, [], ◌∷◌, ◌++◌, append_assoc, arith,
  lt→ltb, ◌⊎◌, inl, inr, dec_lt, Bytes, length, set, set-append, drop, replicate, length-append,
  length-replicate, returned, fault,
}
use telebra.Web.State.{Client}
use telebra.Web.Cgi.{read_content}

read_content_step :
    (n i : ℕ) (content : Bytes) (b : ℕ) (bs : Bytes) (c : Client)
    → i < 1024
    → c.input ≡ b ∷ bs
    → read_content (suc n) i content c
      ≡ read_content n (i + 1) (set content i b) (record c { input = bs })
unfolding read_content
read_content_step n i content b bs c lt e = rw (e, read_content) (rw (lt→ltb _ _ lt) refl)

read_content-append :
    (bs rest pre post : Bytes) (c : Client)
    → c.input ≡ bs ++ rest
    → length pre + length bs ≤ 1024
    → length bs ≤ length post
    → read_content (length bs) (length pre) (pre ++ post) c
      ≡ returned (pre ++ (bs ++ drop (length bs) post)) (record c { input = rest })
read_content-append [] rest pre post c e small fits =
    unfold read_content in ap (λ i. returned (pre ++ post) (record c { input = i })) e
read_content-append (b ∷ bs) rest pre [] c e small fits = absurd (omega arith)
read_content-append (b ∷ bs) rest pre (p ∷ post) c e small fits =
    let longer = length-append pre (b ∷ []) in
    let d = record c { input = bs ++ rest } in
    let ih =
      read_content-append bs rest (pre ++ b ∷ []) post d refl (omega (arith, longer))
        (omega arith) in
    read_content_step (length bs) (length pre) (pre ++ p ∷ post) b (bs ++ rest) c (omega arith) e
    ∙ rw (set-append pre post p b) (
        rw
          (
            longer,
            append_assoc pre (b ∷ []) post,
            append_assoc pre (b ∷ []) (bs ++ drop (length bs) post),
          )
          at ih)

-- The content of a POST that the client sends and that fits is read whole: `postContent` holds it
-- with zeros behind it, and reading goes on behind it.
pub read_content_fits :
    (body rest : Bytes) (c : Client)
    → c.input ≡ body ++ rest
    → length body ≤ 1024
    → read_content (length body) 0 (replicate 1024 0) c
      ≡ returned (body ++ drop (length body) (replicate 1024 0)) (record c { input = rest })
read_content_fits body rest c e small =
    read_content-append body rest [] (replicate 1024 0) c e (omega arith)
      (omega (arith, length-replicate {A = ℕ} 1024 0))

read_content_dry :
    (n i : ℕ) (content : Bytes) (c : Client)
    → c.input ≡ []
    → read_content (suc n) i content c ≡ read_content n (i + 1) content c
unfolding read_content
read_content_dry n i content c e =
    rw (e, read_content) (ap (λ x. read_content n (i + 1) content (record c { input = x })) e)

pub input-cases : (xs : Bytes) → (xs ≡ []) ⊎ ((b : ℕ) × (bs : Bytes) × (xs ≡ b ∷ bs))
input-cases [] = inl refl
input-cases (b ∷ bs) = inr (b, bs, refl)

read_content_past :
    (n : ℕ) (content : Bytes) (b : ℕ) (bs : Bytes) (c : Client)
    → c.input ≡ b ∷ bs
    → read_content (suc n) 1024 content c ≡ fault (record c { input = bs })
unfolding read_content
read_content_past n content b bs c e = rw (e, read_content) refl

-- Behind the end of the input nothing is written, however many rounds are left.
read_content_ended :
    (n i : ℕ) (content : Bytes) (c : Client)
    → c.input ≡ []
    → read_content n i content c ≡ returned content c
unfolding read_content
read_content_ended zero i content c e = refl
read_content_ended (suc n) i content c e =
    read_content_dry n i content c e ∙ read_content_ended n (i + 1) content c e

-- The loop from an index on, with what the client still sends.
read_content_past_end :
    (n i : ℕ) (content bs : Bytes) (c : Client)
    → c.input ≡ bs
    → i ≤ 1024
    → 1024 < n + i
    → 1024 < length bs + i
    → read_content n i content c ≡ fault (record c { input = drop (1025 - i) bs })
read_content_past_end zero i content bs c e le h k = absurd (omega arith)
read_content_past_end (suc n) i content [] c e le h k = absurd (omega arith)
read_content_past_end (suc n) i content (b ∷ bs) c e le h k = elim (dec_lt i 1024) [
  | yes lt ↦
      let left : 1025 - i ≡ suc (1025 - (i + 1)) = omega arith in
      read_content_step n i content b bs c lt e
      ∙ read_content_past_end n (i + 1) (set content i b) bs (record c { input = bs }) refl
          (omega arith) (omega arith) (omega arith)
      ∙ ap (λ k. fault (record c { input = drop k (b ∷ bs) })) (sym left)
  | no past ↦
      let at : i ≡ 1024 = omega arith in
      let left : 1 ≡ 1025 - i = omega arith in
      ap (λ k. read_content (suc n) k content c) at
      ∙ read_content_past n content b bs c e
      ∙ ap (λ k. fault (record c { input = drop k (b ∷ bs) })) left
]

read_content_within :
    (n i : ℕ) (content bs : Bytes) (c : Client)
    → c.input ≡ bs
    → (n + i ≤ 1024) ⊎ (length bs + i ≤ 1024)
    → (kept : Bytes) × (read_content n i content c ≡ returned kept (record c { input = drop n bs }))
read_content_within zero i content bs c e h =
    unfold read_content in (content, ap (λ x. returned content (record c { input = x })) e)
read_content_within (suc n) i content [] c e h = (
  content,
  read_content_ended (suc n) i content c e ∙ ap (λ x. returned content (record c { input = x })) e,
)
read_content_within (suc n) i content (b ∷ bs) c e h =
    let (kept, run) =
      read_content_within n (i + 1) (set content i b) bs (record c { input = bs }) refl
        (ground arith) in
    (kept, read_content_step n i content b bs c (ground arith) e ∙ run)

-- The loop over the content writes past the end of `postContent` exactly where the content length and
-- the number of bytes that the client still sends are both above 1024: it has then taken 1025 bytes.
-- Otherwise it returns, with as many bytes taken as the content length says or the client sends.
pub read_content_overflows :
    (n : ℕ) (content : Bytes) (c : Client)
    → ((1024 < n)
        × (1024 < length c.input)
        × (read_content n 0 content c ≡ fault (record c { input = drop 1025 c.input })))
      ⊎ (((n ≤ 1024) ⊎ (length c.input ≤ 1024))
          × (kept : Bytes) × (read_content n 0 content c
              ≡ returned kept (record c { input = drop n c.input })))
read_content_overflows n content c = elim (dec_lt 1024 n) [
  | yes long ↦ elim (dec_lt 1024 (length c.input)) [
    | yes more ↦ inl (
      long,
      more,
      read_content_past_end n 0 content c.input c refl (omega arith) (omega arith) (omega arith),
    )
    | no few ↦
        let (kept, run) = read_content_within n 0 content c.input c refl (inr (omega arith)) in
        inr (inr (omega arith), kept, run)
  ]
  | no short ↦
      let (kept, run) = read_content_within n 0 content c.input c refl (inl (omega arith)) in
      inr (inl (omega arith), kept, run)
]
