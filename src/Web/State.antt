-- ===== src/Web/State.antt =====
-- A connection, and what a request handler takes from its surroundings.
use telebra.Base.{
  ℕ, Bool, Option, List, [], ◌∷◌, ◌++◌, Bytes, Outcome, returned, blocked, fault, running, exited,
}
use telebra.Qik.State.{Qik}

-- `input` holds the bytes that the client sends before it closes its side: `recv` takes one, and
-- fails when none is left. `output` holds the buffers given to `send`, the first one first.
pub record Client : Type 0 where
  pub input : Bytes
  pub output : List Bytes
  pub closed : Bool
  pub qik : Qik

-- An open file as `fgets` reads it: its bytes, with the end behind them; or one of which no read meets
-- the end, as of a device that goes on for ever, or of a directory, where every read fails. `reads i`
-- is then what the buffer holds behind call `i`, up to its NUL.
pub data File : Type 0 where
  ending : Bytes → File
  endless : (reads : ℕ → Bytes) → File

-- The file system, and what the uninitialised locals of the handlers happen to hold.
pub record Host : Type 0 where
  pub stat : Bytes → Option ℕ  -- `st_mode`, or failure
  pub fopen : Bytes → Option File  -- or a null pointer
  pub patience : ℕ  -- the rounds after which the loop over a file without end is cut off
  pub stack_buf : Bytes  -- `buf` of a handler
  pub stack_st_mode : ℕ  -- `st.st_mode` of `accept_request`
  pub stack_post : Bytes  -- `postContent` of `execute_cgi`

abbrev pub H : Type 0 → Type 0
H A = Client → Outcome Client A

abbrev pub send : Bytes → Client → Client
send bs c = record c { output = c.output ++ bs ∷ [] }

-- A call into the driver.
abbrev pub on_qik : (Qik → Outcome Qik (Unit {0})) → H (Unit {0})
on_qik m c = elim (m c.qik) [
  | returned a q ↦ returned a (record c { qik = q })
  | blocked q ↦ blocked (record c { qik = q })
  | fault q ↦ fault (record c { qik = q })
  | running q ↦ running (record c { qik = q })
  | exited q ↦ exited (record c { qik = q })
]
