-- ===== src/Web/Request/Ending.antt =====
-- `accept_request` never loops.
use telebra.Base.{
  ◌≡◌, ◌∷◌, running, length-append, ℕ, zero, suc, ◌+◌, refl, Option, none, some, [], arith, Bytes,
  length,
}
use telebra.Web.State.{File, ending, endless, Client, send}
use telebra.Web.File.{send_endless, until_nul}

-- A null pointer, or a file with an end.
abbrev pub HasEnd : Option File → Type 0
HasEnd none = Unit
HasEnd (some (ending file)) = Unit
HasEnd (some (endless reads)) = ⊥

-- A file without an end is read and sent on for ever.
send_endless-running :
    (n : ℕ) (reads : ℕ → Bytes) (c : Client)
    → (d : Client) × (send_endless n reads c ≡ running d) × (length d.output ≡ length c.output + n)
unfolding send_endless
send_endless-running zero reads c = (c, refl, omega arith)
send_endless-running (suc n) reads c =
    let text = until_nul (reads 0) in
    let (d, run, more) = send_endless-running n (λ i. reads (suc i)) (send text c) in
    (d, run, omega (arith, more, length-append c.output (text ∷ [])))
