-- ===== src/SerialPort/Setup/Fields.antt =====
-- What the port is set to: the fields of the four flag words, and that the lines give them their values.
use telebra.Base.{
  zero, suc, ◌<◌, All, ℕ_discrete, ℕ, ◌≡◌, refl, ap, ◌∙◌, Bool, true, false, not, ◌&&◌, ◌||◌,
  Bool-cases, inl, inr, List, [], ◌∷◌, arith, if◌then◌else◌,
}
use telebra.SerialPort.Termios.{Flags, TermiosLib}
use telebra.SerialPort.Setup.{
  ◌∪◌, Op, clears, sets, step, apply, control_modes, local_modes, input_modes, output_modes,
}

-- The settings as a table: the mask of a field of a word, and the value that the field is to have.
abbrev pub Fields : Type 0
Fields = List (Flags × Flags)

abbrev pub off : Flags
off n = false

module _ (t : TermiosLib) where
  -- Eight bits, no parity, one stop bit, no modem lines.
  abbrev pub control_fields : Fields
  control_fields =
      (t.parenb, off)
      ∷ (t.parodd, off)
      ∷ (t.cstopb, off)
      ∷ (t.cs5 ∪ t.cs6 ∪ t.cs7 ∪ t.cs8, t.cs8)
      ∷ (t.clocal, t.clocal)
      ∷ (t.cread, t.cread)
      ∷ (t.hupcl, off)
      ∷ []

  -- No lines, no echo, no signals, and no flush where a signal comes.
  abbrev pub local_fields : Fields
  local_fields =
      (t.icanon, off)
      ∷ (t.echo, off)
      ∷ (t.echoe, off)
      ∷ (t.echok, off)
      ∷ (t.echonl, off)
      ∷ (t.isig, off)
      ∷ (t.iexten, off)
      ∷ (t.noflsh, t.noflsh)
      ∷ (t.tostop, off)
      ∷ []

  -- Each byte received as it is, but for those with a parity error.
  abbrev pub input_fields : Fields
  input_fields =
      (t.brkint, off)
      ∷ (t.icrnl, off)
      ∷ (t.inlcr, off)
      ∷ (t.ignbrk, off)
      ∷ (t.igncr, off)
      ∷ (t.inpck, t.inpck)
      ∷ (t.ignpar, t.ignpar)
      ∷ (t.parmrk, off)
      ∷ (t.istrip, off)
      ∷ (t.ixany, off)
      ∷ (t.ixoff, off)
      ∷ (t.ixon, off)
      ∷ []

  -- Each byte sent as it is, with the first of the delays of each kind.
  abbrev pub output_fields : Fields
  output_fields =
      (t.opost, off)
      ∷ (t.onlcr, off)
      ∷ (t.ocrnl, off)
      ∷ (t.onocr, t.onocr)
      ∷ (t.onlret, t.onlret)
      ∷ (t.ofill, t.ofill)
      ∷ (t.nl1 ∪ t.nl0, t.nl0)
      ∷ (t.cr1 ∪ t.cr2 ∪ t.cr3 ∪ t.cr0, t.cr0)
      ∷ (t.tab1 ∪ t.tab2 ∪ t.tab3 ∪ t.tab0, t.tab0)
      ∷ (t.bs1 ∪ t.bs0, t.bs0)
      ∷ (t.vt1 ∪ t.vt0, t.vt0)
      ∷ (t.ff1 ∪ t.ff0, t.ff0)
      ∷ []

-- Whether a field has the bit, and whether at most one has it.
abbrev pub named : Fields → ℕ → Bool
named [] n = false
named ((m, v) ∷ fs) n = m n || named fs n

abbrev pub once : Fields → ℕ → Bool
once [] n = true
once ((m, v) ∷ fs) n = if m n then not (named fs n) else once fs n

abbrev pub all_below : ℕ → (ℕ → Bool) → Bool
all_below zero p = true
all_below (suc k) p = p k && all_below k p

pub all_below-at : (k n : ℕ) (p : ℕ → Bool) → all_below k p ≡ true → n < k → p n ≡ true
all_below-at zero n p h lt = absurd (omega arith)
all_below-at (suc k) n p h lt = elim (ℕ_discrete n k) [
  | yes same ↦ ap p same ∙ (Bool-and h).0
  | no other ↦ all_below-at k n p (Bool-and h).1 (omega arith)
]
  where
    Bool-and : {a b : Bool} → (a && b) ≡ true → (a ≡ true) × (b ≡ true)
    Bool-and {a} {b} e = ground arith

-- The fields of each word share no bit, as termios.h says of its flags.
pub record Distinct (t : TermiosLib) : Type 0 where
  pub control : all_below 32 (once (control_fields t)) ≡ true
  pub local : all_below 32 (once (local_fields t)) ≡ true
  pub input : all_below 32 (once (input_fields t)) ≡ true
  pub output : all_below 32 (once (output_fields t)) ≡ true

-- Lines that give each field its value.
pub data Gives : List Op → Fields → Type 0 where
  done : Gives [] []
  clearing :
      {ops : List Op} {fs : Fields} (f : Flags)
      → Gives ops fs
      → Gives (clears f ∷ ops) ((f, off) ∷ fs)
  setting :
      {ops : List Op} {fs : Fields} (f : Flags) → Gives ops fs → Gives (sets f ∷ ops) ((f, f) ∷ fs)
  choosing :
      {ops : List Op} {fs : Fields} (f g : Flags)
      → Gives ops fs
      → Gives (clears f ∷ sets g ∷ ops) ((f ∪ g, g) ∷ fs)

-- A bit of no field stays.
untouched :
    {ops : List Op} {fs : Fields} (n : ℕ) (w : Flags)
    → Gives ops fs
    → named fs n ≡ false
    → apply ops w n ≡ w n
unfolding apply
untouched n w done h = refl
untouched n w (clearing f g) h = untouched n (step (clears f) w) g (ground arith) ∙ ground arith
untouched n w (setting f g) h = untouched n (step (sets f) w) g (ground arith) ∙ ground arith
untouched n w (choosing f k g) h =
    untouched n (step (sets k) (step (clears f) w)) g (ground arith) ∙ ground arith

-- The word `b` behind the lines, at a bit, where `a` is the one before them.
pub record Given (fs : Fields) (a b : Flags) (n : ℕ) : Type 0 where
  pub values : All (λ f. (b n && f.0 n) ≡ f.1 n) fs
  pub others : (b n && not (named fs n)) ≡ (a n && not (named fs n))

not_named-once : (fs : Fields) (n : ℕ) → named fs n ≡ false → once fs n ≡ true
not_named-once [] n h = refl
not_named-once ((m, v) ∷ fs) n h = ground (arith, not_named-once fs n)

-- One field more in front.
first :
    (n : ℕ) (m v w x b : Flags) (fs : Fields)
    → (named fs n ≡ false → b n ≡ x n)
    → (x n ≡ (if m n then v n else w n))
    → (v n && not (m n)) ≡ false
    → once ((m, v) ∷ fs) n ≡ true
    → (once fs n ≡ true → Given fs x b n)
    → Given ((m, v) ∷ fs) w b n
first n m v w x b fs stays val within o rest = elim (Bool-cases (m n)) [
  | inl here ↦
      let free : named fs n ≡ false = ground arith in
      let same = stays free in
      let g = rest (not_named-once fs n free) in
      record { values = (ground arith, g.values); others = ground arith }
  | inr away ↦
      let g = rest (ground arith) in
      record { values = (ground arith, g.values); others = ground (arith, g.others) }
]

pub Gives-Given :
    {ops : List Op} {fs : Fields} (n : ℕ) (w : Flags)
    → Gives ops fs
    → once fs n ≡ true
    → Given fs w (apply ops w) n
unfolding apply
Gives-Given n w done o = record { values = tt; others = refl }
Gives-Given n w (clearing {fs} f g) o =
    let x = step (clears f) w in
    first n f off w x _ fs (untouched n x g) (ground arith) refl o (Gives-Given n x g)
Gives-Given n w (setting {fs} f g) o =
    let x = step (sets f) w in
    first n f f w x _ fs (untouched n x g) (ground arith) (ground arith) o (Gives-Given n x g)
Gives-Given n w (choosing {fs} f k g) o =
    let x = step (sets k) (step (clears f) w) in
    first n (f ∪ k) k w x _ fs (untouched n x g) (ground arith) (ground arith) o (Gives-Given n x g)

module _ (t : TermiosLib) where
  pub control-Gives : Gives (control_modes t) (control_fields t)
  control-Gives =
      clearing _ (clearing _ (clearing _ (choosing _ _ (setting _ (setting _ (clearing _ done))))))

  pub local-Gives : Gives (local_modes t) (local_fields t)
  local-Gives = clearing _ (
      clearing _ (
        clearing _
          (clearing _ (clearing _ (clearing _ (clearing _ (setting _ (clearing _ done))))))))

  pub input-Gives : Gives (input_modes t) (input_fields t)
  input-Gives = clearing _ (
      clearing _ (
        clearing _ (
          clearing _ (
            clearing _ (
              setting _ (
                setting _
                  (clearing _ (clearing _ (clearing _ (clearing _ (clearing _ done)))))))))))

  pub output-Gives : Gives (output_modes t) (output_fields t)
  output-Gives = clearing _ (
      clearing _ (
        clearing _ (
          setting _ (
            setting _ (
              setting _ (
                choosing _ _ (
                  choosing _ _
                    (choosing _ _ (choosing _ _ (choosing _ _ (choosing _ _ done)))))))))))
