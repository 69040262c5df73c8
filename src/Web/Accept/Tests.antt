-- ===== src/Web/Accept/Tests.antt =====
-- The theorems on the accepting thread at concrete runs.
use telebra.Base.{false, ◌≡◌, refl, [], ◌∷◌}
use telebra.Web.Accept.{
  Server, Run, starts, accepts, creates, reads, IsQuiet, AnyTime, Matched, Run-Matched, Run-race,
}

abbrev one_each : Server
one_each = record { client_sock = 8; creating = false; waiting = 1; handled = 7 ∷ [] }

first_then_second : Run IsQuiet (7 ∷ 8 ∷ []) one_each
first_then_second =
    creates (accepts 8 (reads 0 (creates (accepts 7 starts refl refl) refl) refl) refl refl) refl

Run-Matched_example : Matched (7 ∷ 8 ∷ []) one_each
Run-Matched_example = Run-Matched first_then_second

Run-race_example :
    (s : Server) × Run AnyTime (7 ∷ 8 ∷ []) s × (s.waiting ≡ 0) × (s.handled ≡ 8 ∷ 8 ∷ [])
Run-race_example = Run-race 7 8
