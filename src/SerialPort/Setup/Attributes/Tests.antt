-- ===== src/SerialPort/Setup/Attributes/Tests.antt =====
-- The theorems on the set-up at a concrete header, in which each flag is a bit of its word, and the
-- flags of a field with the value 0 have none.
use telebra.Base.{
  arith, ℕ, ◌≡◌, refl, true, false, ◌||◌, ◌==◌, codes, pos, minus_one, returned, ◌>>◌,
}
use telebra.SerialPort.Termios.{Flags, Termios, TermiosLib}
use telebra.SerialPort.Setup.{Serial, initialize_serial_port, clean_up_serial_port}
use telebra.SerialPort.Setup.Fields.{Distinct}
use telebra.SerialPort.Setup.Attributes.{
  Configured, initialize_serial_port-Configured, clean_up-initialize_serial_port,
}

abbrev bit : ℕ → Flags
bit k n = n == k

abbrev none_set : Flags
none_set n = false

abbrev header : TermiosLib
header = record {
  parenb = bit 0;
  parodd = bit 1;
  cstopb = bit 2;
  cs5 = none_set;
  cs6 = bit 3;
  cs7 = bit 4;
  cs8 = λ n. (n == 3) || (n == 4);
  clocal = bit 5;
  cread = bit 6;
  hupcl = bit 7;
  icanon = bit 0;
  echo = bit 1;
  echoe = bit 2;
  echok = bit 3;
  echonl = bit 4;
  isig = bit 5;
  iexten = bit 6;
  noflsh = bit 7;
  tostop = bit 8;
  brkint = bit 0;
  icrnl = bit 1;
  inlcr = bit 2;
  ignbrk = bit 3;
  igncr = bit 4;
  inpck = bit 5;
  ignpar = bit 6;
  parmrk = bit 7;
  istrip = bit 8;
  ixany = bit 9;
  ixoff = bit 10;
  ixon = bit 11;
  opost = bit 0;
  onlcr = bit 1;
  ocrnl = bit 2;
  onocr = bit 3;
  onlret = bit 4;
  ofill = bit 5;
  nl0 = none_set;
  nl1 = bit 6;
  cr0 = none_set;
  cr1 = bit 7;
  cr2 = bit 8;
  cr3 = bit 9;
  tab0 = none_set;
  tab1 = bit 10;
  tab2 = bit 11;
  tab3 = bit 12;
  bs0 = none_set;
  bs1 = bit 13;
  vt0 = none_set;
  vt1 = bit 14;
  ff0 = none_set;
  ff1 = bit 15;
  vtime = 5;
  vmin = 6;
  b38400 = 15;
  cfsetispeed = λ a speed. a;
  cfsetospeed = λ a speed. a;
}

abbrev cooked : Termios
cooked = record {
  c_iflag = bit 0;
  c_oflag = bit 0;
  c_cflag = bit 0;
  c_lflag = bit 0;
  c_cc = λ i. 1;
}

abbrev unopened : Serial
unopened = record { descriptor = minus_one; orig_attr = cooked; device = cooked; closed = false }

header-Distinct : Distinct header
header-Distinct = record { control = refl; local = refl; input = refl; output = refl }

initialize_serial_port-Configured_example :
    (u : Serial) × (initialize_serial_port header (λ path. pos 3) (codes "/dev/ttyAMA0") unopened
      ≡ returned tt u)
    × (u.descriptor ≡ pos 3)
    × (u.orig_attr ≡ cooked)
    × Configured header cooked u.device 0
initialize_serial_port-Configured_example =
    initialize_serial_port-Configured header (λ path. pos 3) (codes "/dev/ttyAMA0") unopened 0 refl
      header-Distinct (omega arith)

clean_up-initialize_serial_port_example :
    (initialize_serial_port header (λ path. pos 3) (codes "/dev/ttyAMA0") >> clean_up_serial_port)
      unopened
    ≡ returned tt
        (record { descriptor = pos 3; orig_attr = cooked; device = cooked; closed = true })
clean_up-initialize_serial_port_example =
    clean_up-initialize_serial_port header (λ path. pos 3) (codes "/dev/ttyAMA0") unopened
