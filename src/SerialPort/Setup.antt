-- ===== src/SerialPort/Setup.antt =====
-- The set-up of the port in MotorDriver/SerialPort.c: `initializeSerialPort`, `cleanUpSerialPort`.
pub mod Fields
pub mod Attributes
use telebra.SerialPort.Termios.{Flags, Termios, TermiosLib}
use telebra.Base.{
  ℕ, Bool, true, false, not, ◌&&◌, ◌||◌, List, [], ◌∷◌, ◌++◌, ◌==◌, if◌then◌else◌, Bytes, ℤ, int_eq,
  minus_one, Outcome, returned, exited,
}

-- `w &= ~f` and `w |= f`
pub data Op : Type 0 where
  clears : Flags → Op
  sets : Flags → Op

abbrev pub step : Op → Flags → Flags
step (clears f) w n = w n && not (f n)
step (sets f) w n = w n || f n

unfoldable pub apply : List Op → Flags → Flags
apply [] w = w
apply (op ∷ ops) w = apply ops (step op w)

infixl 4 ◌∪◌
abbrev pub ◌∪◌ : Flags → Flags → Flags
◌∪◌ f g n = f n || g n

module _ (t : TermiosLib) where
  abbrev pub control_modes : List Op
  control_modes =
      clears t.parenb
      ∷ clears t.parodd
      ∷ clears t.cstopb
      ∷ clears (t.cs5 ∪ t.cs6 ∪ t.cs7)
      ∷ sets t.cs8
      ∷ sets t.clocal
      ∷ sets t.cread
      ∷ clears t.hupcl
      ∷ []

  abbrev pub local_modes : List Op
  local_modes =
      clears t.icanon
      ∷ clears t.echo
      ∷ clears t.echoe
      ∷ clears t.echok
      ∷ clears t.echonl
      ∷ clears t.isig
      ∷ clears t.iexten
      ∷ sets t.noflsh
      ∷ clears t.tostop
      ∷ []

  abbrev pub input_modes : List Op
  input_modes =
      clears t.brkint
      ∷ clears t.icrnl
      ∷ clears t.inlcr
      ∷ clears t.ignbrk
      ∷ clears t.igncr
      ∷ sets t.inpck
      ∷ sets t.ignpar
      ∷ clears t.parmrk
      ∷ clears t.istrip
      ∷ clears t.ixany
      ∷ clears t.ixoff
      ∷ clears t.ixon
      ∷ []

  abbrev pub output_modes : List Op
  output_modes =
      clears t.opost
      ∷ clears t.onlcr
      ∷ clears t.ocrnl
      ∷ sets t.onocr
      ∷ sets t.onlret
      ∷ sets t.ofill
      ∷ clears t.nl1
      ∷ sets t.nl0
      ∷ clears (t.cr1 ∪ t.cr2 ∪ t.cr3)
      ∷ sets t.cr0
      ∷ clears (t.tab1 ∪ t.tab2 ∪ t.tab3)
      ∷ sets t.tab0
      ∷ clears t.bs1
      ∷ sets t.bs0
      ∷ clears t.vt1
      ∷ sets t.vt0
      ∷ clears t.ff1
      ∷ sets t.ff0
      ∷ []

  -- `c_cc[i] = v`
  abbrev pub put_cc : ℕ → ℕ → (ℕ → ℕ) → ℕ → ℕ
  put_cc i v cc j = if i == j then v else cc j

  -- `termAttr` when it is given to `tcsetattr`.
  unfoldable pub attributes : Termios → Termios
  attributes orig =
      let a = t.cfsetospeed (t.cfsetispeed orig t.b38400) t.b38400 in
      record {
        c_iflag = apply input_modes a.c_iflag;
        c_oflag = apply output_modes a.c_oflag;
        c_cflag = apply control_modes a.c_cflag;
        c_lflag = apply local_modes a.c_lflag;
        c_cc = put_cc t.vmin 0 (put_cc t.vtime 0 a.c_cc);
      }

-- The globals, and what the calls on the port changed: its attributes, and whether it was closed.
pub record Serial : Type 0 where
  pub descriptor : ℤ
  pub orig_attr : Termios
  pub device : Termios
  pub closed : Bool

-- `open` is what the call of that name returns for a path. Where it fails the process ends.
unfoldable pub initialize_serial_port :
    TermiosLib → (open_port : Bytes → ℤ) → Bytes → Serial → Outcome Serial (Unit {0})
initialize_serial_port t open_port path s =
    if int_eq (open_port path) minus_one
    then exited (record s { descriptor = minus_one })
    else returned tt (record s {
      descriptor = open_port path;
      orig_attr = s.device;
      device = attributes t s.device;
    })

unfoldable pub clean_up_serial_port : Serial → Outcome Serial (Unit {0})
clean_up_serial_port s = returned tt (record s { device = s.orig_attr; closed = true })
