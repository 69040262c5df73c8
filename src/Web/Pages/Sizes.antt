-- ===== src/Web/Pages/Sizes.antt =====
-- How much the responses send.
use telebra.Base.{
  ℕ, ◌+◌, ◌*◌, ◌≤◌, ◌≡◌, refl, ◌∙◌, sym, List, [], ◌∷◌, ◌++◌, append_assoc, append-nil, arith,
  Bytes, length, drop, length-append, length-drop, All,
}
use telebra.Web.State.{Client, send}
use telebra.Web.Pages.{sprintf, send_texts, send_buffers, bad_request_texts, bad_request}

pub output-send_texts : (ss : List Bytes) (c : Client) → (send_texts ss c).output ≡ c.output ++ ss
unfolding send_texts
output-send_texts [] c = sym (append-nil c.output)
output-send_texts (s ∷ ss) c = output-send_texts ss (send s c) ∙ append_assoc c.output (s ∷ []) ss

abbrev pub total : List Bytes → ℕ
total [] = 0
total (s ∷ ss) = length s + total ss

total-append : (ss ts : List Bytes) → total (ss ++ ts) ≡ total ss + total ts
total-append [] ts = omega arith
total-append (s ∷ ss) ts = omega (arith, total-append ss ts)

length-sprintf : (s buf : Bytes) → length s + 1 ≤ length buf → length (sprintf s buf) ≡ length buf
length-sprintf s buf h =
    omega (arith, length-append s (0 ∷ drop (length s + 1) buf), length-drop (length s + 1) buf)

total-send_buffers :
    (ss : List Bytes) (buf : Bytes) (c : Client)
    → All (λ s. length s + 1 ≤ length buf) ss
    → total (send_buffers ss buf c).output ≡ total c.output + length ss * length buf
unfolding send_buffers
total-send_buffers [] buf c h = omega arith
total-send_buffers (s ∷ ss) buf c h =
    let same = length-sprintf s buf h.0 in
    let more = total-send_buffers ss (sprintf s buf) (send (sprintf s buf) c) (rw same h.1) in
    more ∙ rw same (omega (arith, total-append c.output (sprintf s buf ∷ []), same))

-- `bad_request` sends 5120 bytes, five whole buffers of 1024, although its texts have 131: the rest
-- is what the stack held.
pub total-bad_request :
    (buf : Bytes) (c : Client)
    → length buf ≡ 1024
    → (total (bad_request buf c).output ≡ total c.output + 5120) × (total bad_request_texts ≡ 131)
unfolding bad_request
total-bad_request buf c h =
    (total-send_buffers bad_request_texts buf c (rw h (omega arith)) ∙ rw h (omega arith), refl)
