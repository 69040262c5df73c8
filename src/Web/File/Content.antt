-- ===== src/Web/File/Content.antt =====
-- Which bytes of a file `serve_file` sends.
use telebra.Base.{
  ℕ, zero, suc, ◌+◌, ◌≤◌, ◌<◌, ◌≡◌, ◌≢◌, inl, inr, refl, sym, ap, ◌∙◌, true, false, List, [], ◌∷◌,
  ◌++◌, append_assoc, append-nil, arith, ne→not_==, Bool-cases, Bytes, length, length-append, All,
  All-split, returned,
}
use telebra.Web.State.{Client, send}
use telebra.Web.File.{Chunk, fgets, until_nul, send_chunks, send_file}

-- The bytes of a list of buffers.
abbrev pub joined : List Bytes → Bytes
joined [] = []
joined (s ∷ ss) = s ++ joined ss

pub joined-concat : (ss : List Bytes) (s : Bytes) → joined (ss ++ s ∷ []) ≡ joined ss ++ s
joined-concat [] s = append-nil s
joined-concat (t ∷ ss) s =
    ap (λ x. t ++ x) (joined-concat ss s) ∙ sym (append_assoc t (joined ss) s)

fgets-append : (n : ℕ) (file : Bytes) → (fgets n file).text ++ (fgets n file).left ≡ file
unfolding fgets
fgets-append zero file = refl
fgets-append (suc n) [] = refl
fgets-append (suc n) (c ∷ file) = ground (arith, fgets-append n file)

-- At the end of the file: nothing is left, and the chunk is short of its room and of a line feed.
fgets_eof :
    (n : ℕ) (file : Bytes)
    → (fgets n file).eof ≡ true
    → ((fgets n file).left ≡ [])
      × (length (fgets n file).text < n)
      × All (λ c. c ≢ b'\n') (fgets n file).text
unfolding fgets
fgets_eof zero file e = cc
fgets_eof (suc n) [] e = (refl, omega arith, tt)
fgets_eof (suc n) (c ∷ file) e = ground (arith, fgets_eof n file)

pub fgets_more :
    (n : ℕ) (file : Bytes)
    → (fgets (suc n) file).eof ≡ false
    → length (fgets (suc n) file).left < length file
unfolding fgets
fgets_more n [] e = cc
fgets_more zero (c ∷ file) e = ground arith
fgets_more (suc n) (c ∷ file) e = ground (arith, fgets_more n file)

until_nul-All : (cs : Bytes) → All (λ c. c ≢ 0) cs → until_nul cs ≡ cs
unfolding until_nul
until_nul-All [] h = refl
until_nul-All (c ∷ cs) h = rw (ne→not_== c 0 h.0, until_nul-All cs h.1)

-- What has been sent of a file when the loop ends, starting from `c`.
pub record Sends (file : Bytes) (c d : Client) : Type 0 where
  pub unsent : Bytes
  pub splits : joined d.output ++ unsent ≡ joined c.output ++ file
  pub short : length unsent < 1023
  pub no_line_end : All (λ x. x ≢ b'\n') unsent

send_chunks-Sends :
    (n : ℕ) (file : Bytes) (c : Client)
    → length file + 1 < n
    → All (λ x. x ≢ 0) file
    → (d : Client) × (send_chunks n (fgets 1023 file) c ≡ returned tt d) × Sends file c d
unfolding send_chunks
send_chunks-Sends zero file c lt h = absurd (omega arith)
send_chunks-Sends (suc n) file c lt h =
    let k = fgets 1023 file in
    let parts : All (λ x. x ≢ 0) k.text × All (λ x. x ≢ 0) k.left =
      All-split (λ x. x ≢ 0) k.text k.left (rw (fgets-append 1023 file) h) in
    elim (Bool-cases k.eof) [
      | inl end ↦
          let (done, short, no_end) = fgets_eof 1023 file end in
          (
            c,
            rw end refl,
            record {
              unsent = k.text;
              splits =
                  ap (λ t. joined c.output ++ t)
                    (sym (append-nil k.text)
                      ∙ ap (λ t. k.text ++ t) (sym done)
                      ∙ fgets-append 1023 file);
              short = short;
              no_line_end = no_end;
            },
          )
      | inr more ↦
          let shorter = fgets_more 1022 file more in
          let (d, run, s) =
            send_chunks-Sends n k.left (send (until_nul k.text) c) (omega arith) parts.1 in
          (
            d,
            rw more run,
            record {
              unsent = s.unsent;
              splits =
                  s.splits
                  ∙ ap (λ t. joined (c.output ++ t ∷ []) ++ k.left) (until_nul-All k.text parts.0)
                  ∙ ap (λ t. t ++ k.left) (joined-concat c.output k.text)
                  ∙ append_assoc (joined c.output) k.text k.left
                  ∙ ap (λ t. joined c.output ++ t) (fgets-append 1023 file);
              short = s.short;
              no_line_end = s.no_line_end;
            },
          )
    ]

-- Sending a file without NUL bytes always ends, and what has been sent of it is all but a last part
-- of fewer than 1023 bytes with no line feed.
pub send_file-Sends :
    (file : Bytes) (c : Client)
    → All (λ x. x ≢ 0) file
    → (d : Client) × (send_file file c ≡ returned tt d) × Sends file c d
unfolding send_file
send_file-Sends file c h = send_chunks-Sends (length file + 2) file c (omega arith) h

-- A line of a text file: it fits the buffer with its line feed.
abbrev pub IsFileLine : Bytes → Type 0
IsFileLine l = All (λ x. (x ≢ b'\n') × (x ≢ 0)) l × (length l + 1 < 1023)

abbrev pub unlines : List Bytes → Bytes → Bytes
unlines [] rest = rest
unlines (l ∷ ls) rest = l ++ b'\n' ∷ unlines ls rest

abbrev pub ended : List Bytes → List Bytes
ended [] = []
ended (l ∷ ls) = (l ++ b'\n' ∷ []) ∷ ended ls

fgets_line :
    (n : ℕ) (l rest : Bytes)
    → All (λ x. (x ≢ b'\n') × (x ≢ 0)) l
    → length l < n
    → fgets n (l ++ b'\n' ∷ rest) ≡ record { text = l ++ b'\n' ∷ []; left = rest; eof = false }
unfolding fgets
fgets_line zero l rest h lt = absurd (omega arith)
fgets_line (suc n) [] rest h lt = refl
fgets_line (suc n) (c ∷ l) rest h lt =
    rw (ne→not_== c b'\n' h.0.0)
      (ap {A = Chunk} (λ k. record k { text = c ∷ k.text }) (fgets_line n l rest h.1 (omega arith)))

fgets_last : (n : ℕ) (l : Bytes) → All (λ x. x ≢ b'\n') l → length l < n → (fgets n l).eof ≡ true
unfolding fgets
fgets_last zero l h lt = absurd (omega arith)
fgets_last (suc n) [] h lt = refl
fgets_last (suc n) (c ∷ l) h lt = rw (ne→not_== c b'\n' h.0) (fgets_last n l h.1 (omega arith))

until_nul_line :
    (l : Bytes) → All (λ x. (x ≢ b'\n') × (x ≢ 0)) l → until_nul (l ++ b'\n' ∷ []) ≡ l ++ b'\n' ∷ []
unfolding until_nul
until_nul_line [] h = refl
until_nul_line (c ∷ l) h = rw (ne→not_== c 0 h.0.1) (ap (λ t. c ∷ t) (until_nul_line l h.1))

send_chunks_lines :
    (n : ℕ) (ls : List Bytes) (last : Bytes) (c : Client)
    → All IsFileLine ls
    → All (λ x. x ≢ b'\n') last
    → length last < 1023
    → length ls < n
    → send_chunks n (fgets 1023 (unlines ls last)) c
      ≡ returned tt (record c { output = c.output ++ ended ls })
unfolding send_chunks
send_chunks_lines zero ls last c h e lt n = absurd (omega arith)
send_chunks_lines (suc n) [] last c h e lt k = rw (fgets_last 1023 last e lt, append-nil)
send_chunks_lines (suc n) (l ∷ ls) last c h e lt k =
    rw (fgets_line 1023 l (unlines ls last) h.0.0 (omega arith)) (
      rw (until_nul_line l h.0.0) (
        send_chunks_lines n ls last (send (l ++ b'\n' ∷ []) c) h.1 e lt (omega arith)
        ∙ ap (λ o. returned tt (record c { output = o }))
            (append_assoc c.output ((l ++ b'\n' ∷ []) ∷ []) (ended ls))))

length-unlines : (ls : List Bytes) (last : Bytes) → length ls ≤ length (unlines ls last)
length-unlines [] last = omega arith
length-unlines (l ∷ ls) last =
    omega (arith, length-append l (b'\n' ∷ unlines ls last), length-unlines ls last)

-- Of a text file of lines that fit the buffer, exactly the lines that end in a line feed are sent,
-- one `send` each; a last line without one is not sent at all.
pub send_file_lines :
    (ls : List Bytes) (last : Bytes) (c : Client)
    → All IsFileLine ls
    → All (λ x. x ≢ b'\n') last
    → length last < 1023
    → send_file (unlines ls last) c ≡ returned tt (record c { output = c.output ++ ended ls })
unfolding send_file
send_file_lines ls last c h e lt =
    send_chunks_lines (length (unlines ls last) + 2) ls last c h e lt
      (omega (arith, length-unlines ls last))
