-- ===== src/Base/Monad.antt =====
-- What a call of stateful C code comes to, and the monad of such code over a state.
use mathlib.Core.Path.{◌≡◌}

-- `returned` is a normal return; `blocked` waits on a lock for ever; `fault` is undefined
-- behaviour (a write out of bounds, a null pointer); `running` is a loop whose fuel ran out;
-- `exited` is the end of the whole process.
pub data Outcome (S A : Type 0) : Type 0 where
  returned : A → S → Outcome S A
  blocked : S → Outcome S A
  fault : S → Outcome S A
  running : S → Outcome S A
  exited : S → Outcome S A

infixl 5 ◌>>=◌ ◌>>◌
abbrev pub ◌>>=◌ : {S A B : Type 0} → (S → Outcome S A) → (A → S → Outcome S B) → S → Outcome S B
◌>>=◌ m f s = elim (m s) [
  | returned a t ↦ f a t
  | blocked t ↦ blocked t
  | fault t ↦ fault t
  | running t ↦ running t
  | exited t ↦ exited t
]

abbrev pub ◌>>◌ : {S B : Type 0} → (S → Outcome S (Unit {0})) → (S → Outcome S B) → S → Outcome S B
m >> k = m >>= λ _. k

abbrev pub modify : {S : Type 0} → (S → S) → S → Outcome S (Unit {0})
modify f s = returned tt (f s)

abbrev pub get_state : {S : Type 0} → S → Outcome S S
get_state s = returned s s

-- A call whose result the caller drops.
abbrev pub ignore : {S A : Type 0} → (S → Outcome S A) → S → Outcome S (Unit {0})
ignore m = m >>= λ _. modify (λ s. s)

-- Running `m` and then `f` where `m` is known to return.
pub >>=-returned :
    {S A B : Type 0} (m : S → Outcome S A) (f : A → S → Outcome S B) {s t : S} {a : A}
    → m s ≡ returned a t
    → (m >>= f) s ≡ f a t
>>=-returned m f e = rw (e, ◌>>=◌)

pub >>=-blocked :
    {S A B : Type 0} (m : S → Outcome S A) (f : A → S → Outcome S B) {s t : S}
    → m s ≡ blocked t
    → (m >>= f) s ≡ blocked t
>>=-blocked m f e = rw (e, ◌>>=◌)

pub >>=-fault :
    {S A B : Type 0} (m : S → Outcome S A) (f : A → S → Outcome S B) {s t : S}
    → m s ≡ fault t
    → (m >>= f) s ≡ fault t
>>=-fault m f e = rw (e, ◌>>=◌)

pub >>=-exited :
    {S A B : Type 0} (m : S → Outcome S A) (f : A → S → Outcome S B) {s t : S}
    → m s ≡ exited t
    → (m >>= f) s ≡ exited t
>>=-exited m f e = rw (e, ◌>>=◌)

pub >>=-running :
    {S A B : Type 0} (m : S → Outcome S A) (f : A → S → Outcome S B) {s t : S}
    → m s ≡ running t
    → (m >>= f) s ≡ running t
>>=-running m f e = rw (e, ◌>>=◌)
