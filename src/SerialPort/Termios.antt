-- ===== src/SerialPort/Termios.antt =====
-- What MotorDriver/SerialPort.c uses of termios.h.
use telebra.Base.{ℕ, Bool}

-- A `tcflag_t`, bit by bit.
abbrev pub Flags : Type 0
Flags = ℕ → Bool

pub record Termios : Type 0 where
  pub c_iflag : Flags
  pub c_oflag : Flags
  pub c_cflag : Flags
  pub c_lflag : Flags
  pub c_cc : ℕ → ℕ

-- What termios.h has: its constants, and the two functions that set the speed.
pub record TermiosLib : Type 0 where
  pub parenb : Flags
  pub parodd : Flags
  pub cstopb : Flags
  pub cs5 : Flags
  pub cs6 : Flags
  pub cs7 : Flags
  pub cs8 : Flags
  pub clocal : Flags
  pub cread : Flags
  pub hupcl : Flags
  pub icanon : Flags
  pub echo : Flags
  pub echoe : Flags
  pub echok : Flags
  pub echonl : Flags
  pub isig : Flags
  pub iexten : Flags
  pub noflsh : Flags
  pub tostop : Flags
  pub brkint : Flags
  pub icrnl : Flags
  pub inlcr : Flags
  pub ignbrk : Flags
  pub igncr : Flags
  pub inpck : Flags
  pub ignpar : Flags
  pub parmrk : Flags
  pub istrip : Flags
  pub ixany : Flags
  pub ixoff : Flags
  pub ixon : Flags
  pub opost : Flags
  pub onlcr : Flags
  pub ocrnl : Flags
  pub onocr : Flags
  pub onlret : Flags
  pub ofill : Flags
  pub nl0 : Flags
  pub nl1 : Flags
  pub cr0 : Flags
  pub cr1 : Flags
  pub cr2 : Flags
  pub cr3 : Flags
  pub tab0 : Flags
  pub tab1 : Flags
  pub tab2 : Flags
  pub tab3 : Flags
  pub bs0 : Flags
  pub bs1 : Flags
  pub vt0 : Flags
  pub vt1 : Flags
  pub ff0 : Flags
  pub ff1 : Flags
  pub vtime : ℕ
  pub vmin : ℕ
  pub b38400 : ℕ
  pub cfsetispeed : Termios → ℕ → Termios
  pub cfsetospeed : Termios → ℕ → Termios
