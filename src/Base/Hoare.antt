-- ===== src/Base/Hoare.antt =====
-- What holds of the value and the state that a call comes to, however it ends.
use mathlib.Core.Bool.{Bool, true, false}
use telebra.Base.Tests.{if◌then◌else◌}
use telebra.Base.Monad.{
  Outcome, returned, blocked, fault, running, exited, ◌>>=◌, ◌>>◌, modify, ignore,
}

abbrev pub Ensures : {S A : Type 0} → (A → Type 0) → (S → Type 0) → Outcome S A → Type 0
Ensures V P (returned a s) = V a × P s
Ensures V P (blocked s) = P s
Ensures V P (fault s) = P s
Ensures V P (running s) = P s
Ensures V P (exited s) = P s

pub Ensures-if :
    {S A : Type 0} (V : A → Type 0) (P : S → Type 0) (b : Bool) (o q : Outcome S A)
    → Ensures V P o
    → Ensures V P q
    → Ensures V P (if b then o else q)
Ensures-if V P true o q h k = h
Ensures-if V P false o q h k = k

abbrev pub Any : {A : Type 0} → A → Type 0
Any a = Unit

-- From a state with `P`, `m` comes to one, and returns only values with `V`.
pub record Keeps {S A : Type 0} (P : S → Type 0) (V : A → Type 0) (m : S → Outcome S A)
    : Type 0 where
  pub at : (s : S) → P s → Ensures V P (m s)

module _ {S A : Type 0} {P : S → Type 0} where
  pub Keeps-returned : (V : A → Type 0) (a : A) → V a → Keeps P V (returned a)
  Keeps-returned V a v = record { at = λ s p. (v, p) }

  pub Keeps-if :
      {V : A → Type 0} (b : Bool) (m n : S → Outcome S A)
      → Keeps P V m
      → Keeps P V n
      → Keeps P V (if b then m else n)
  Keeps-if true m n k l = k
  Keeps-if false m n k l = l

module _ {S : Type 0} {P : S → Type 0} where
  pub Keeps-modify : (f : S → S) → ((s : S) → P s → P (f s)) → Keeps P Any (modify f)
  Keeps-modify f k = record { at = λ s p. (tt, k s p) }

module _ {S A B : Type 0} {P : S → Type 0} where
  bound-Ensures :
      (V : A → Type 0) (W : B → Type 0) (o : Outcome S A) (f : A → S → Outcome S B)
      → Ensures V P o
      → ((a : A) → V a → Keeps P W (f a))
      → Ensures W P (elim o [
        | returned a t ↦ f a t
        | blocked t ↦ blocked t
        | fault t ↦ fault t
        | running t ↦ running t
        | exited t ↦ exited t
      ])
  bound-Ensures V W (returned a t) f h k = (k a h.0).at t h.1
  bound-Ensures V W (blocked t) f h k = h
  bound-Ensures V W (fault t) f h k = h
  bound-Ensures V W (running t) f h k = h
  bound-Ensures V W (exited t) f h k = h

  -- A sequence keeps `P` if both parts do; the second may use what the first ensures of its value.
  pub Keeps-bind :
      (V : A → Type 0) (W : B → Type 0) (m : S → Outcome S A) (f : A → S → Outcome S B)
      → Keeps P V m
      → ((a : A) → V a → Keeps P W (f a))
      → Keeps P W (m >>= f)
  Keeps-bind V W m f k l = record { at = λ s p. bound-Ensures V W (m s) f (k.at s p) l }

module _ {S A : Type 0} {P : S → Type 0} where
  pub Keeps-ignore : (V : A → Type 0) (m : S → Outcome S A) → Keeps P V m → Keeps P Any (ignore m)
  Keeps-ignore V m k =
      Keeps-bind V Any m (λ _. modify (λ s. s)) k (λ a v. Keeps-modify (λ s. s) (λ s p. p))

module _ {S B : Type 0} {P : S → Type 0} where
  pub Keeps-then :
      (W : B → Type 0) (m : S → Outcome S (Unit {0})) (n : S → Outcome S B)
      → Keeps P Any m
      → Keeps P W n
      → Keeps P W (m >> n)
  Keeps-then W m n k l = Keeps-bind Any W m (λ _. n) k (λ a v. l)

-- The same of a call that does not come to undefined behaviour.
abbrev pub Sound : {S A : Type 0} → (A → Type 0) → (S → Type 0) → Outcome S A → Type 0
Sound V P (returned a s) = V a × P s
Sound V P (blocked s) = P s
Sound V P (fault s) = ⊥
Sound V P (running s) = P s
Sound V P (exited s) = P s

pub Sound-if :
    {S A : Type 0} (V : A → Type 0) (P : S → Type 0) (b : Bool) (o q : Outcome S A)
    → Sound V P o
    → Sound V P q
    → Sound V P (if b then o else q)
Sound-if V P true o q h k = h
Sound-if V P false o q h k = k

module _ {S A B : Type 0} (V : A → Type 0) (W : B → Type 0) (P : S → Type 0) where
  bound-Sound :
      (o : Outcome S A) (f : A → S → Outcome S B)
      → Sound V P o
      → ((a : A) (t : S) → V a → P t → Sound W P (f a t))
      → Sound W P (elim o [
        | returned a t ↦ f a t
        | blocked t ↦ blocked t
        | fault t ↦ fault t
        | running t ↦ running t
        | exited t ↦ exited t
      ])
  bound-Sound (returned a t) f h k = k a t h.0 h.1
  bound-Sound (blocked t) f h k = h
  bound-Sound (fault t) f h k = h
  bound-Sound (running t) f h k = h
  bound-Sound (exited t) f h k = h

  pub Sound-bind :
      (m : S → Outcome S A) (f : A → S → Outcome S B) (s : S)
      → Sound V P (m s)
      → ((a : A) (t : S) → V a → P t → Sound W P (f a t))
      → Sound W P ((m >>= f) s)
  Sound-bind m f s = bound-Sound (m s) f

pub Sound-Ensures :
    {S A : Type 0} (V : A → Type 0) (P : S → Type 0) (o : Outcome S A) → Sound V P o → Ensures V P o
Sound-Ensures V P (returned a s) h = h
Sound-Ensures V P (blocked s) h = h
Sound-Ensures V P (fault s) h = absurd h
Sound-Ensures V P (running s) h = h
Sound-Ensures V P (exited s) h = h
