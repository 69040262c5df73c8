-- ===== src/Qik/Typed.antt =====
-- Every value of the driver is in the range of its C type, and the indices stand inside the ring.
pub mod Queue
pub mod Motor
pub mod Serial
use telebra.Base.{
  replicate, ℕ, zero, suc, ◌+◌, ◌%◌, ◌^◌, ◌<◌, ◌≡◌, refl, ◌∙◌, ap, arith, List, [], ◌∷◌, ◌++◌,
  Bytes, length, get_or, set, take, All, length-set,
}
use telebra.Qik.State.{Qik}

abbrev pub AreBytes : Bytes → Type 0
AreBytes = All (λ b. b < 256)

pub record IsTyped (s : Qik) : Type 0 where
  pub size : length s.queue ≡ 1024
  pub head_in : s.head < 1024
  pub tail_in : s.tail < 1024
  pub stored : AreBytes s.queue
  pub pending : s.pending_cmd < 256
  pub stamped : s.cmd_sent_timestamp < 2 ^ 64
  pub shutoff : s.motor_shutoff_time < 2 ^ 64
  pub written : All AreBytes s.wire

pub AreBytes-get_or : (bs : Bytes) (i : ℕ) → AreBytes bs → get_or bs i 0 < 256
AreBytes-get_or [] i h = omega arith
AreBytes-get_or (b ∷ bs) zero h = h.0
AreBytes-get_or (b ∷ bs) (suc i) h = AreBytes-get_or bs i h.1

pub AreBytes-set : (bs : Bytes) (i v : ℕ) → AreBytes bs → v < 256 → AreBytes (set bs i v)
AreBytes-set [] i v h lt = tt
AreBytes-set (b ∷ bs) zero v h lt = (lt, h.1)
AreBytes-set (b ∷ bs) (suc i) v h lt = (h.0, AreBytes-set bs i v h.1 lt)

pub AreBytes-take : (n : ℕ) (bs : Bytes) → AreBytes bs → AreBytes (take n bs)
AreBytes-take zero bs h = tt
AreBytes-take (suc n) [] h = tt
AreBytes-take (suc n) (b ∷ bs) h = (h.0, AreBytes-take n bs h.1)

pub AreBytes-zeros : (n : ℕ) → AreBytes (replicate n 0)
AreBytes-zeros zero = tt
AreBytes-zeros (suc n) = (omega arith, AreBytes-zeros n)
