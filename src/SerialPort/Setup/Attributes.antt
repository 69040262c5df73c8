-- ===== src/SerialPort/Setup/Attributes.antt =====
-- The attributes that the port gets, and gets back.
mod Tests
use telebra.Base.{
  zero, suc, ◌<◌, All, ℕ_discrete, ℕ, ◌≡◌, ◌≢◌, refl, ap, ◌∙◌, Bool, true, false, not, ◌&&◌, ◌||◌,
  Bool-cases, inl, inr, Option, none, some, List, [], ◌∷◌, ◌++◌, ◌==◌, arith, if◌then◌else◌, Bytes,
  ℤ, int_eq, minus_one, Outcome, returned, exited, ◌>>◌, ◌>>=◌, >>=-returned, >>=-exited,
}
use telebra.SerialPort.Termios.{Flags, Termios, TermiosLib}
use telebra.SerialPort.Setup.{
  ◌∪◌, Op, clears, sets, step, apply, control_modes, local_modes, input_modes, output_modes,
  attributes, Serial, initialize_serial_port, clean_up_serial_port,
}
use telebra.SerialPort.Setup.Fields.{
  Distinct, Given, Gives-Given, all_below-at, once, control_fields, local_fields, input_fields,
  output_fields, control-Gives, local-Gives, input-Gives, output-Gives,
}

-- Each word of the attributes at a bit, after the speed was set from `a` on, and the control characters.
pub record Configured (t : TermiosLib) (a b : Termios) (n : ℕ) : Type 0 where
  pub control : Given (control_fields t) a.c_cflag b.c_cflag n
  pub local : Given (local_fields t) a.c_lflag b.c_lflag n
  pub input : Given (input_fields t) a.c_iflag b.c_iflag n
  pub output : Given (output_fields t) a.c_oflag b.c_oflag n
  pub no_timer : b.c_cc t.vtime ≡ 0
  pub no_minimum : b.c_cc t.vmin ≡ 0

attributes-cc :
    (t : TermiosLib) (o : Termios)
    → ((attributes t o).c_cc t.vtime ≡ 0) × ((attributes t o).c_cc t.vmin ≡ 0)
unfolding attributes
attributes-cc t o = (ground arith, ground arith)

attributes-Configured :
    (t : TermiosLib) (o : Termios) (n : ℕ)
    → Distinct t
    → n < 32
    → Configured t (t.cfsetospeed (t.cfsetispeed o t.b38400) t.b38400) (attributes t o) n
unfolding attributes
attributes-Configured t o n d lt =
    let a = t.cfsetospeed (t.cfsetispeed o t.b38400) t.b38400 in
    record {
      control =
          Gives-Given n a.c_cflag (control-Gives t)
            (all_below-at 32 n (once (control_fields t)) d.control lt);
      local =
          Gives-Given n a.c_lflag (local-Gives t)
            (all_below-at 32 n (once (local_fields t)) d.local lt);
      input =
          Gives-Given n a.c_iflag (input-Gives t)
            (all_below-at 32 n (once (input_fields t)) d.input lt);
      output =
          Gives-Given n a.c_oflag (output-Gives t)
            (all_below-at 32 n (once (output_fields t)) d.output lt);
      no_timer = (attributes-cc t o).0;
      no_minimum = (attributes-cc t o).1;
    }

opens :
    (t : TermiosLib) (open_port : Bytes → ℤ) (path : Bytes) (s : Serial)
    → int_eq (open_port path) minus_one ≡ false
    → initialize_serial_port t open_port path s
      ≡ returned tt (record s {
        descriptor = open_port path;
        orig_attr = s.device;
        device = attributes t s.device;
      })
unfolding initialize_serial_port
opens t open_port path s e = rw e refl

fails :
    (t : TermiosLib) (open_port : Bytes → ℤ) (path : Bytes) (s : Serial)
    → int_eq (open_port path) minus_one ≡ true
    → initialize_serial_port t open_port path s ≡ exited (record s { descriptor = minus_one })
unfolding initialize_serial_port
fails t open_port path s e = rw e refl

-- Where `open` succeeds and the fields of each flag word share no bit: the port gets its attributes
-- with the speed set and, in each of the four words of 32 bits, every field with the value that the
-- tables of Setup/Fields give it (8 bits, no parity, one stop bit; no line editing, echo or signals; bytes as
-- they are in both directions), and every other bit as before; reads wait for no time and for no
-- minimum of bytes. The attributes from before are kept.
pub initialize_serial_port-Configured :
    (t : TermiosLib) (open_port : Bytes → ℤ) (path : Bytes) (s : Serial) (n : ℕ)
    → int_eq (open_port path) minus_one ≡ false
    → Distinct t
    → n < 32
    → (u : Serial) × (initialize_serial_port t open_port path s ≡ returned tt u)
      × (u.descriptor ≡ open_port path)
      × (u.orig_attr ≡ s.device)
      × Configured t (t.cfsetospeed (t.cfsetispeed s.device t.b38400) t.b38400) u.device n
initialize_serial_port-Configured t open_port path s n e d lt = (
  record s { descriptor = open_port path; orig_attr = s.device; device = attributes t s.device },
  opens t open_port path s e,
  refl,
  refl,
  attributes-Configured t s.device n d lt,
)

-- Setting the port up and cleaning it up gives it back the attributes that it had; where `open` fails
-- the process ends, and the port was not touched.
pub clean_up-initialize_serial_port :
    (t : TermiosLib) (open_port : Bytes → ℤ) (path : Bytes) (s : Serial)
    → (initialize_serial_port t open_port path >> clean_up_serial_port) s ≡ (
        if int_eq (open_port path) minus_one
        then exited (record s { descriptor = minus_one })
        else returned tt (record {
          descriptor = open_port path;
          orig_attr = s.device;
          device = s.device;
          closed = true;
        }))
unfolding clean_up_serial_port
clean_up-initialize_serial_port t open_port path s =
    elim (Bool-cases (int_eq (open_port path) minus_one)) [
      | inl e ↦ rw e (
          >>=-exited (initialize_serial_port t open_port path) (λ _. clean_up_serial_port)
            (fails t open_port path s e))
      | inr e ↦ rw e (
          >>=-returned (initialize_serial_port t open_port path) (λ _. clean_up_serial_port)
            (opens t open_port path s e))
    ]
