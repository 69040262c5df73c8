-- ===== src/Zebra/Script.antt =====
-- The child of `execute_cgi` in ZebraHttpd/httpd.c, and the environment that it gives to `execl` for a
-- script.
pub mod Decimal
pub mod Post
use telebra.Base.{
  blocked, running, exited, ℕ, zero, suc, ◌+◌, ◌/◌, ◌%◌, Bool, true, false, Option, none, some,
  List, [], ◌∷◌, ◌++◌, ltb, ◌==◌, if◌then◌else◌, Bytes, length, codes, ℤ, pos, negsuc, Outcome,
  returned, fault, ◌>>=◌, ◌>>◌,
}
use telebra.Libc.{str_case_eq}
use telebra.Zebra.Cgi.{Print, run_c}
use telebra.Web.Cgi.{ends_in_c, get, post}

-- The decimal digits of a number in front of `out`. Each round divides the number by ten, so `n`
-- rounds are enough.
unfoldable pub digits : (rounds n : ℕ) → Bytes → Bytes
digits zero n out = out
digits (suc r) n out =
    let more = digits r (n / 10) ((b'0' + n % 10) ∷ out) in if n == 0 then out else more

unfoldable pub decimal : ℕ → Bytes
decimal n = if n == 0 then b'0' ∷ [] else digits n n []

-- "%d"
unfoldable pub int_text : ℤ → Bytes
int_text (pos n) = decimal n
int_text (negsuc n) = b'-' ∷ decimal (suc n)

-- The strings given to `putenv`, in order.
abbrev pub Env : Type 0 → Type 0
Env A = List Bytes → Outcome (List Bytes) A

-- `sprintf` into a buffer of 255 bytes, and `putenv`.
unfoldable pub put_env : Bytes → Env (Unit {0})
put_env text env = if ltb 255 (length text + 1) then fault env else returned tt (env ++ text ∷ [])

-- The branch on the method; `query_string` is a null pointer where there is none.
unfoldable pub put_request : Bytes → Option Bytes → ℤ → Env (Unit {0})
put_request method query content_length env =
    if str_case_eq method get
    then elim query [ none ↦ fault env | some q ↦ put_env (codes "QUERY_STRING=" ++ q) env ]
    else if str_case_eq method post
    then put_env (codes "CONTENT_LENGTH=" ++ int_text content_length) env
    else returned tt env

-- The child for a path that does not end in ".c": the path for `execl`, with the environment.
unfoldable pub run_script : Bytes → Bytes → Option Bytes → ℤ → Env Bytes
run_script path method query content_length = do
  put_env (codes "REQUEST_METHOD=" ++ method)
  put_request method query content_length
  returned path

-- What the child comes to: the strings given to `putenv`, what `processMotorControl` printed, and the
-- path for `execl`, if it comes to that; otherwise the child exits.
pub record Child : Type 0 where
  pub environment : List Bytes
  pub printed : List Print
  pub executes : Option Bytes

abbrev code_child : Outcome (List Print) (Unit {0}) → Outcome Child (Unit {0})
code_child o =
    let child : List Print → Child =
      λ p. record { environment = []; printed = p; executes = none } in
    elim o [
      | returned a p ↦ returned tt (child p)
      | blocked p ↦ blocked (child p)
      | fault p ↦ fault (child p)
      | running p ↦ running (child p)
      | exited p ↦ exited (child p)
    ]

abbrev script_child : Outcome (List Bytes) Bytes → Outcome Child (Unit {0})
script_child o =
    let child : Option Bytes → List Bytes → Child =
      λ path env. record { environment = env; printed = []; executes = path } in
    elim o [
      | returned path env ↦ returned tt (child (some path) env)
      | blocked env ↦ blocked (child none env)
      | fault env ↦ fault (child none env)
      | running env ↦ running (child none env)
      | exited env ↦ exited (child none env)
    ]

-- The child, with `chunk` for what its `read` of the input pipe returns.
unfoldable pub run_child :
    Bytes → Bytes → Option Bytes → ℤ → (chunk : Bytes) → Outcome Child (Unit {0})
run_child path method query content_length chunk =
    if ends_in_c path
    then code_child (run_c path method content_length chunk)
    else script_child (run_script path method query content_length [])
