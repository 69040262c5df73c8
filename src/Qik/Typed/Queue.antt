-- ===== src/Qik/Typed/Queue.antt =====
-- The queue's operations.
use telebra.Base.{
  ℕ, zero, suc, ◌+◌, ◌%◌, ◌<◌, ◌∙◌, Bool, true, false, arith, [], ◌∷◌, ltb, Bytes, length, get_or,
  set, length-set, Ensures, Ensures-if, Any, Keeps,
}
use telebra.Qik.State.{Qik}
use telebra.Qik.Queue.{
  flag, size_used, put_byte, put_bytes, queue_qik_command, pull_byte, pull_payload,
}
use telebra.Qik.Typed.{AreBytes, IsTyped, AreBytes-get_or, AreBytes-set}

put_byte-IsTyped : (b : ℕ) (s : Qik) → b < 256 → IsTyped s → IsTyped (put_byte b s)
unfolding put_byte
put_byte-IsTyped b s lt t = record {
  size = length-set s.queue s.tail b ∙ t.size;
  head_in = t.head_in;
  tail_in = omega arith;
  stored = AreBytes-set s.queue s.tail b t.stored lt;
  pending = t.pending;
  stamped = t.stamped;
  shutoff = t.shutoff;
  written = t.written;
}

put_bytes-IsTyped : (bs : Bytes) (s : Qik) → AreBytes bs → IsTyped s → IsTyped (put_bytes bs s)
unfolding put_bytes
put_bytes-IsTyped [] s h t = t
put_bytes-IsTyped (b ∷ bs) s h t =
    put_bytes-IsTyped bs (put_byte b s) h.1 (put_byte-IsTyped b s h.0 t)

mutex-IsTyped : (b : Bool) (s : Qik) → IsTyped s → IsTyped (record s { mutex = b })
mutex-IsTyped b s t = record {
  size = t.size;
  head_in = t.head_in;
  tail_in = t.tail_in;
  stored = t.stored;
  pending = t.pending;
  stamped = t.stamped;
  shutoff = t.shutoff;
  written = t.written;
}

flag_lt : (e : Bool) → flag e < 256
flag_lt true = omega arith
flag_lt false = omega arith

pub queue_qik_command-Keeps :
    (buf : Bytes) (e : Bool)
    → AreBytes buf
    → length buf < 256
    → Keeps IsTyped Any (queue_qik_command buf e)
unfolding queue_qik_command
queue_qik_command-Keeps buf e h lt = record {
  at = λ s t. Ensures-if Any IsTyped s.mutex _ _ t (
      Ensures-if Any IsTyped (ltb (size_used s + length buf + 2) 1024) _ _
        (
          tt,
          mutex-IsTyped false _ (
              put_bytes-IsTyped buf _ h
                (put_byte-IsTyped (flag e) _ (flag_lt e) (put_byte-IsTyped (length buf) s lt t))),
        )
        (tt, mutex-IsTyped true s t));
}

head-IsTyped : (s : Qik) → IsTyped s → IsTyped (record s { head = (s.head + 1) % 1024 })
head-IsTyped s t = record {
  size = t.size;
  head_in = omega arith;
  tail_in = t.tail_in;
  stored = t.stored;
  pending = t.pending;
  stamped = t.stamped;
  shutoff = t.shutoff;
  written = t.written;
}

pub pull_byte-Keeps : Keeps IsTyped (λ b. b < 256) pull_byte
unfolding pull_byte
pull_byte-Keeps = record { at = λ s t. (AreBytes-get_or s.queue s.head t.stored, head-IsTyped s t) }

pull_payload-Ensures :
    (n i : ℕ) (tmp : Bytes) (s : Qik)
    → AreBytes tmp
    → IsTyped s
    → Ensures AreBytes IsTyped (pull_payload n i tmp s)
unfolding pull_payload
pull_payload-Ensures zero i tmp s h t = (h, t)
pull_payload-Ensures (suc n) i tmp s h t =
    Ensures-if AreBytes IsTyped (ltb i 16) _ _
      (pull_payload-Ensures n (i + 1) (set tmp i (get_or s.queue s.head 0)) _
        (AreBytes-set tmp i _ h (AreBytes-get_or s.queue s.head t.stored)) (head-IsTyped s t))
      t

pub pull_payload-Keeps :
    (n i : ℕ) (tmp : Bytes) → AreBytes tmp → Keeps IsTyped AreBytes (pull_payload n i tmp)
pull_payload-Keeps n i tmp h = record { at = λ s t. pull_payload-Ensures n i tmp s h t }
