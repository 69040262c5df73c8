-- ===== src/Base/Ending.antt =====
-- Calls that end: by a return or otherwise, but not because a loop's fuel ran out.
use mathlib.Core.Path.{◌≡◌, refl}
use mathlib.Core.Bool.{Bool, true, false}
use telebra.Base.Tests.{if◌then◌else◌}
use telebra.Base.Monad.{Outcome, returned, blocked, fault, running, exited, ◌>>=◌, ignore}

abbrev pub halted : {S A : Type 0} → Outcome S A → Bool
halted (returned a s) = true
halted (blocked s) = true
halted (fault s) = true
halted (running s) = false
halted (exited s) = true

abbrev pub Halts : {S A : Type 0} → Outcome S A → Type 0
Halts o = halted o ≡ true

bound-Halts :
    {S A B : Type 0} (o : Outcome S A) (f : A → S → Outcome S B)
    → Halts o
    → ((a : A) (s : S) → Halts (f a s))
    → Halts {A = B} (elim o [
      | returned a t ↦ f a t
      | blocked t ↦ blocked t
      | fault t ↦ fault t
      | running t ↦ running t
      | exited t ↦ exited t
    ])
bound-Halts (returned a t) f h k = k a t
bound-Halts (blocked t) f h k = refl
bound-Halts (fault t) f h k = refl
bound-Halts (running t) f h k = cc
bound-Halts (exited t) f h k = refl

-- A sequence ends if both parts do.
pub >>=-Halts :
    {S A B : Type 0} (m : S → Outcome S A) (f : A → S → Outcome S B) (s : S)
    → Halts (m s)
    → ((a : A) (t : S) → Halts (f a t))
    → Halts ((m >>= f) s)
>>=-Halts m f s h k = bound-Halts (m s) f h k

pub ignore-Halts : {S A : Type 0} (m : S → Outcome S A) (s : S) → Halts (m s) → Halts (ignore m s)
ignore-Halts m s h = >>=-Halts m (λ a t. returned tt t) s h (λ a t. refl)

pub if-Halts :
    {S A : Type 0} (b : Bool) (o p : Outcome S A) → Halts o → Halts p → Halts (if b then o else p)
if-Halts true o p h k = h
if-Halts false o p h k = k

pub if_run-Halts :
    {S A : Type 0} (b : Bool) (m n : S → Outcome S A) (s : S)
    → Halts (m s)
    → Halts (n s)
    → Halts ((if b then m else n) s)
if_run-Halts true m n s h k = h
if_run-Halts false m n s h k = k
