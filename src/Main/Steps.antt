-- ===== src/Main/Steps.antt =====
-- The calls of `main`, one after the other: what one of them does decides the next.
use telebra.Base.{
  ℕ, ◌≡◌, ◌⊎◌, refl, ◌∙◌, true, false, [], ◌∷◌, ◌++◌, arith, ◌==◌, if◌then◌else◌, codes, pos,
  int_eq, returned, running, ◌>>◌, >>=-returned, >>=-running,
}
use telebra.Qik.State.{Qik, M, initial}
use telebra.Qik.Serial.{Moment, check_shutoff, dequeue_qik_command, process_qik_state}
use telebra.Main.{
  Platform, Machine, error_pin, check_error_pin, initialize_gpio, initial_info, port_opens, poll,
  start_threads, serial_thread, httpd_thread, main, on_driver, error_exit, started,
}

pub initialize_gpio-check_error_pin :
    (p : Platform) (s t : Qik)
    → int_eq p.pi_init_failed p.gpio_initialise ≡ false
    → int_eq (pos 0) (p.gpio_set_mode error_pin p.pi_input) ≡ true
    → int_eq (pos 0) (p.gpio_set_pull_up_down error_pin p.pi_pud_down) ≡ true
    → int_eq (pos 0) (p.gpio_set_isr_func error_pin p.rising_edge 0) ≡ true
    → check_error_pin p s ≡ returned tt t
    → initialize_gpio p s ≡ returned 1 t
unfolding initialize_gpio
initialize_gpio-check_error_pin p s t a b c d run =
    rw (a, b, c, d) (>>=-returned (check_error_pin p) (λ _. returned 1) run)

pub initialize_gpio_failed :
    (p : Platform) (s : Qik)
    → (int_eq p.pi_init_failed p.gpio_initialise ≡ true)
      ⊎ (int_eq (pos 0) (p.gpio_set_mode error_pin p.pi_input) ≡ false)
      ⊎ (int_eq (pos 0) (p.gpio_set_pull_up_down error_pin p.pi_pud_down) ≡ false)
      ⊎ (int_eq (pos 0) (p.gpio_set_isr_func error_pin p.rising_edge 0) ≡ false)
    → initialize_gpio p s ≡ returned 0 s
unfolding initialize_gpio
initialize_gpio_failed p s failed = ground arith

-- With no shutoff time set, a round only empties the queue.
pub process_qik_state-dequeue :
    (env : ℕ → Moment) (spins : ℕ) (s : Qik)
    → s.motor_shutoff_time ≡ 0
    → process_qik_state env spins s ≡ dequeue_qik_command env spins s
unfolding process_qik_state check_shutoff
process_qik_state-dequeue env spins s e = rw e refl

pub poll_one :
    (p : Platform) (env : ℕ → Moment) (spins : ℕ) (s t : Qik)
    → process_qik_state env spins (port_opens p 0 s) ≡ returned tt t
    → poll p env spins 1 0 s ≡ running t
unfolding poll
poll_one p env spins s t e =
    >>=-returned (process_qik_state env spins) (λ _. poll p env spins 0 1) e

abbrev pub booted : Machine
booted = record { qik = initial; threads = []; stderr = [] }

pub on_driver-running :
    {A : Type 0} (m : M A) (s : Machine) {q : Qik}
    → m s.qik ≡ running q
    → on_driver m s ≡ running (record s { qik = q })
on_driver-running m s e = rw (e, on_driver) refl

pub on_driver-returned :
    {A : Type 0} (m : M A) (s : Machine) {a : A} {q : Qik}
    → m s.qik ≡ returned a q
    → on_driver m s ≡ returned a (record s { qik = q })
on_driver-returned m s e = rw (e, on_driver) refl

-- The `return 0` behind the endless loop.
abbrev pub zero_result : M ℕ
zero_result = returned 0

pub start_threads-poll :
    (p : Platform) (env : ℕ → Moment) (spins n : ℕ) (s : Machine) (t u : Qik)
    → int_eq p.create_serial (pos 0) ≡ true
    → int_eq p.create_httpd (pos 0) ≡ true
    → initial_info s.qik ≡ returned tt t
    → poll p env spins n 0 t ≡ running u
    → start_threads p env spins n s
      ≡ running
          (record s { qik = u; threads = (s.threads ++ serial_thread ∷ []) ++ httpd_thread ∷ [] })
unfolding start_threads
start_threads-poll p env spins n s t u a b e f =
    rw (a, b)
      (on_driver-running (initial_info >> (poll p env spins n 0 >> zero_result))
        (started httpd_thread (started serial_thread s))
        (>>=-returned initial_info (λ _. poll p env spins n 0 >> zero_result) e
          ∙ >>=-running (poll p env spins n 0) (λ _. zero_result) f))

pub main-start_threads :
    (p : Platform) (env : ℕ → Moment) (spins n : ℕ) (s : Machine) (t : Qik)
    → initialize_gpio p s.qik ≡ returned 1 t
    → main p env spins n s ≡ start_threads p env spins n (record s { qik = t })
unfolding main
main-start_threads p env spins n s t e =
    >>=-returned (on_driver (initialize_gpio p))
      (λ ready.
        if ready == 0
        then error_exit (codes "Error initializing GPIO\n")
        else start_threads p env spins n)
      (on_driver-returned (initialize_gpio p) s e)
