-- ===== src/Zebra/Cgi/Pipes.antt =====
-- `execute_cgi` of ZebraHttpd/httpd.c behind the fork: the server copies the content of a POST to the
-- script and its output to the client, while the script does what it likes with its two pipes.
pub mod Relay
pub mod Deadlock
mod Tests
use telebra.Base.{
  ℕ, zero, suc, ◌+◌, ◌<◌, ◌≡◌, Bool, true, false, List, [], ◌∷◌, ◌++◌, Bytes, length,
}

-- The server: in the loop over the content with `n` bytes to go, in the loop over the output of the
-- script, behind `waitpid`, or ended by the signal for a write to a pipe that no one reads.
pub data Server : Type 0 where
  copying : (n : ℕ) → Server
  relaying : Server
  finished : Server
  killed : Server

-- `input` is what the client still sends, and `last` the variable `c`; the child is alive until it
-- exits, and holds its ends of both pipes until then.
pub record Cgi : Type 0 where
  pub input : Bytes
  pub last : ℕ
  pub cgi_input : Bytes
  pub cgi_output : Bytes
  pub server : Server
  pub alive : Bool
  pub sent : List Bytes

-- A child that was just forked, for content of `n` bytes.
abbrev pub forked : (n : ℕ) → (input : Bytes) → (last : ℕ) → Cgi
forked n input last = record {
  input = input;
  last = last;
  cgi_input = [];
  cgi_output = [];
  server = copying n;
  alive = true;
  sent = [];
}

-- The runs from `start` on, with the bytes that the server copied to the script, those that the
-- script read, and those that it wrote. A pipe takes `capacity` bytes; a write to a full one waits, and a
-- read from an empty one too, while someone can still write to it.
pub data Run (capacity : ℕ) (start : Cgi) : Bytes → Bytes → Bytes → Cgi → Type 0 where
  begins : Run capacity start [] [] [] start
  copies :
      {copied taken written : Bytes} {s : Cgi} (n b : ℕ) (rest : Bytes)
      → Run capacity start copied taken written s
      → s.server ≡ copying (suc n)
      → s.input ≡ b ∷ rest
      → s.alive ≡ true
      → length s.cgi_input < capacity
      → Run capacity start (copied ++ b ∷ []) taken written (record s {
        input = rest;
        last = b;
        cgi_input = s.cgi_input ++ b ∷ [];
        server = copying n;
      })
  -- `recv` fails, and the byte received last is written again.
  repeats :
      {copied taken written : Bytes} {s : Cgi} (n : ℕ)
      → Run capacity start copied taken written s
      → s.server ≡ copying (suc n)
      → s.input ≡ []
      → s.alive ≡ true
      → length s.cgi_input < capacity
      → Run capacity start
          (copied ++ s.last ∷ [])
          taken
          written
          (record s { cgi_input = s.cgi_input ++ s.last ∷ []; server = copying n })
  signalled :
      {copied taken written : Bytes} {s : Cgi} (n : ℕ)
      → Run capacity start copied taken written s
      → s.server ≡ copying (suc n)
      → s.alive ≡ false
      → Run capacity start copied taken written (record s { server = killed })
  copied_all :
      {copied taken written : Bytes} {s : Cgi}
      → Run capacity start copied taken written s
      → s.server ≡ copying 0
      → Run capacity start copied taken written (record s { server = relaying })
  relays :
      {copied taken written : Bytes} {s : Cgi} (b : ℕ) (rest : Bytes)
      → Run capacity start copied taken written s
      → s.server ≡ relaying
      → s.cgi_output ≡ b ∷ rest
      → Run capacity start copied taken written
          (record s { cgi_output = rest; sent = s.sent ++ (b ∷ []) ∷ [] })
  -- The end of the output: no one can write to it any more.
  ends :
      {copied taken written : Bytes} {s : Cgi}
      → Run capacity start copied taken written s
      → s.server ≡ relaying
      → s.cgi_output ≡ []
      → s.alive ≡ false
      → Run capacity start copied taken written (record s { server = finished })
  child_reads :
      {copied taken written : Bytes} {s : Cgi} (b : ℕ) (rest : Bytes)
      → Run capacity start copied taken written s
      → s.alive ≡ true
      → s.cgi_input ≡ b ∷ rest
      → Run capacity start copied (taken ++ b ∷ []) written (record s { cgi_input = rest })
  child_writes :
      {copied taken written : Bytes} {s : Cgi} (b : ℕ)
      → Run capacity start copied taken written s
      → s.alive ≡ true
      → length s.cgi_output < capacity
      → Run capacity start copied taken
          (written ++ b ∷ [])
          (record s { cgi_output = s.cgi_output ++ b ∷ [] })
  child_exits :
      {copied taken written : Bytes} {s : Cgi}
      → Run capacity start copied taken written s
      → s.alive ≡ true
      → Run capacity start copied taken written (record s { alive = false })
