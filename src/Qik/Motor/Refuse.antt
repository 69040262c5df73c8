-- ===== src/Qik/Motor/Refuse.antt =====
-- What `processMotorControl` does with other texts.
use telebra.Base.{
  ◌≡◌, ◌≢◌, ◌⊎◌, ℕ, refl, ◌∙◌, false, some, [], ◌∷◌, ◌++◌, arith, Bytes, All, All-append, codes,
  inl, inr, returned, fault,
}
use telebra.Libc.{str_eq, strtok, skip_delimiter}
use telebra.Libc.Laws.{c_str-append, strtok-append, strtok_last}
use telebra.Qik.State.{Qik}
use telebra.Qik.Motor.{drive, motor_action, motor_tokens, process_motor_control}

-- A text that the code does not know as a direction.
abbrev pub NoDirection : Bytes → Type 0
NoDirection t =
    (str_eq t (codes "UP") ≡ false)
    × (str_eq t (codes "DOWN") ≡ false)
    × (str_eq t (codes "LEFT") ≡ false)
    × (str_eq t (codes "RIGHT") ≡ false)

abbrev pub NoAction : Bytes → Type 0
NoAction t = (str_eq t (codes "START") ≡ false) × (str_eq t (codes "STOP") ≡ false)

drive_unknown : (dir : Bytes) (v : ℕ) (s : Qik) → NoDirection dir → drive dir v s ≡ returned tt s
unfolding drive
drive_unknown dir v s (a, b, c, d) = rw (a, b, c, d)

motor_action_unknown :
    (dir start : Bytes) (s : Qik)
    → NoDirection dir ⊎ NoAction start
    → motor_action dir start s ≡ returned tt s
unfolding motor_action
motor_action_unknown dir start s (inl (a, b, c, d)) =
    ground (arith, drive_unknown dir 0xff s (a, b, c, d), drive_unknown dir 0 s (a, b, c, d))
motor_action_unknown dir start s (inr (a, b)) = rw (a, b)

motor_tokens_two :
    (content dir rest start more : Bytes) (s : Qik)
    → strtok b'_' content ≡ some (dir, rest)
    → strtok b'_' rest ≡ some (start, more)
    → motor_tokens content s ≡ motor_action dir start s
unfolding motor_tokens
motor_tokens_two content dir rest start more s e f = rw (e, motor_tokens) (rw (f, motor_tokens))

motor_tokens_one :
    (content dir : Bytes) (s : Qik)
    → strtok b'_' content ≡ some (dir, [])
    → motor_tokens content s ≡ fault s
unfolding motor_tokens strtok skip_delimiter
motor_tokens_one content dir s e = rw (e, motor_tokens)

process_motor_control_text :
    (text rest : Bytes) (s : Qik)
    → All (λ c. c ≢ 0) text
    → process_motor_control (text ++ 0 ∷ rest) s ≡ motor_tokens text s
unfolding process_motor_control
process_motor_control_text text rest s h = rw (c_str-append text rest h, process_motor_control)

-- A byte of a token: neither NUL nor the delimiter.
abbrev pub IsTokenByte : ℕ → Type 0
IsTokenByte c = (c ≢ 0) × (c ≢ b'_')

All-0 : (t : Bytes) → All IsTokenByte t → All (λ c. c ≢ 0) t
All-0 [] h = tt
All-0 (c ∷ t) h = (h.0.0, All-0 t h.1)

All-delimiter : (t : Bytes) → All IsTokenByte t → All (λ c. c ≢ b'_') t
All-delimiter [] h = tt
All-delimiter (c ∷ t) h = (h.0.1, All-delimiter t h.1)

-- `processMotorControl` on a text of two tokens, of which the first is no direction or the second no
-- action, returns and changes nothing, whatever follows the text in the buffer.
pub process_motor_control_unknown :
    (c k : ℕ) (dir start rest : Bytes) (s : Qik)
    → All IsTokenByte (c ∷ dir)
    → All IsTokenByte (k ∷ start)
    → NoDirection (c ∷ dir) ⊎ NoAction (k ∷ start)
    → process_motor_control (((c ∷ dir) ++ b'_' ∷ k ∷ start) ++ 0 ∷ rest) s ≡ returned tt s
process_motor_control_unknown c k dir start rest s hd hs no_match =
    process_motor_control_text ((c ∷ dir) ++ b'_' ∷ k ∷ start) rest s (
      All-append _ (c ∷ dir) (b'_' ∷ k ∷ start) (All-0 (c ∷ dir) hd)
        (omega arith, All-0 (k ∷ start) hs))
    ∙ motor_tokens_two _ (c ∷ dir) (k ∷ start) (k ∷ start) [] s
        (strtok-append b'_' c dir (k ∷ start) hd.0.1 (All-delimiter dir hd.1))
        (strtok_last b'_' k start hs.0.1 (All-delimiter start hs.1))
    ∙ motor_action_unknown (c ∷ dir) (k ∷ start) s no_match

-- `processMotorControl` on a text without the delimiter, or an empty one, is undefined behaviour: the
-- second token is a null pointer, which `strcmp` reads.
pub process_motor_control_one_token :
    (text rest : Bytes) (s : Qik)
    → All IsTokenByte text
    → process_motor_control (text ++ 0 ∷ rest) s ≡ fault s
process_motor_control_one_token [] rest s h =
    process_motor_control_text [] rest s tt ∙ unfold motor_tokens strtok skip_delimiter in refl
process_motor_control_one_token (c ∷ text) rest s h =
    process_motor_control_text (c ∷ text) rest s (All-0 (c ∷ text) h)
    ∙ motor_tokens_one (c ∷ text) (c ∷ text) s
        (strtok_last b'_' c text h.0.1 (All-delimiter text h.1))
