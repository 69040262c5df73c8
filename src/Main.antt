-- ===== src/Main.antt =====
-- MotorDriver/MotorDriver.c: `main`, `initializeGpio` and the interrupt for the error pin.
pub mod Steps
pub mod Startup
pub mod Order
pub mod Sound
pub mod Reached
use telebra.Base.{
  ℕ, zero, suc, ◌+◌, Bool, true, false, not, ◌||◌, List, [], ◌∷◌, ◌++◌, Bytes, codes, ◌==◌, ℤ, pos,
  int_eq, if◌then◌else◌, Outcome, returned, blocked, fault, running, exited, ◌>>=◌, ◌>>◌, modify,
}
use telebra.Qik.State.{Qik, M, ConfigParameter, default_device_id}
use telebra.Qik.Commands.{get_firmware_version, get_error_byte, get_configuration_parameter}
use telebra.Qik.Serial.{Moment, process_qik_state}

abbrev pub error_pin : ℕ
error_pin = 4

-- What `main` takes from outside: the constants of the GPIO library and what its calls return, what
-- `pthread_create` returns for the two threads, and whether the serial thread has opened the port
-- when a round of the endless loop begins.
pub record Platform : Type 0 where
  pub pi_init_failed : ℤ
  pub pi_input : ℕ
  pub pi_pud_down : ℕ
  pub rising_edge : ℕ
  pub gpio_initialise : ℤ
  pub gpio_set_mode : ℕ → ℕ → ℤ
  pub gpio_set_pull_up_down : ℕ → ℕ → ℤ
  pub gpio_set_isr_func : ℕ → ℕ → ℕ → ℤ
  pub gpio_read : ℕ → ℤ
  pub create_serial : ℤ
  pub create_httpd : ℤ
  pub opened : ℕ → Bool

-- What the program did so far apart from the driver: the threads that it created.
pub data Thread : Type 0 where
  serial_reader : (path : Bytes) → Thread
  http_server : (port : ℕ) → Thread

pub record Machine : Type 0 where
  pub qik : Qik
  pub threads : List Thread
  pub stderr : List Bytes

abbrev on_driver : {A : Type 0} → M A → Machine → Outcome Machine A
on_driver m s = elim (m s.qik) [
  | returned a q ↦ returned a (record s { qik = q })
  | blocked q ↦ blocked (record s { qik = q })
  | fault q ↦ fault (record s { qik = q })
  | running q ↦ running (record s { qik = q })
  | exited q ↦ exited (record s { qik = q })
]

-- `errorFunc`, the interrupt on the rising edge of the error pin.
unfoldable pub error_func : M (Unit {0})
error_func = get_error_byte default_device_id

-- "Get some initial info".
unfoldable pub initial_info : M (Unit {0})
initial_info = do
  get_firmware_version default_device_id
  get_configuration_parameter default_device_id ConfigParameter.device_id
  get_configuration_parameter default_device_id ConfigParameter.pwm_parameter
  get_configuration_parameter default_device_id ConfigParameter.shutdown_motor_on_error
  get_configuration_parameter default_device_id ConfigParameter.serial_timeout

-- `return 1` with a line on `stderr`.
abbrev error_exit : Bytes → Machine → Outcome Machine ℕ
error_exit line s = returned 1 (record s { stderr = s.stderr ++ line ∷ [] })

abbrev pub serial_thread : Thread
serial_thread = serial_reader (codes "/dev/ttyAMA0")

abbrev pub httpd_thread : Thread
httpd_thread = http_server 43742

abbrev started : Thread → Machine → Machine
started t s = record s { threads = s.threads ++ t ∷ [] }

module _ (p : Platform) where
  -- The end of `initializeGpio`: the pin is read once.
  unfoldable pub check_error_pin : M (Unit {0})
  check_error_pin =
      if int_eq (p.gpio_read error_pin) (pos 0)
      then returned tt
      else get_error_byte default_device_id

  unfoldable pub initialize_gpio : M ℕ
  initialize_gpio =
      if int_eq p.pi_init_failed p.gpio_initialise
      then returned 0
      else if not (int_eq (pos 0) (p.gpio_set_mode error_pin p.pi_input))
      then returned 0
      else if not (int_eq (pos 0) (p.gpio_set_pull_up_down error_pin p.pi_pud_down))
      then returned 0
      else if not (int_eq (pos 0) (p.gpio_set_isr_func error_pin p.rising_edge 0))
      then returned 0
      else (do check_error_pin; returned 1)

  -- The descriptor is set by the serial thread.
  abbrev pub port_opens : ℕ → Qik → Qik
  port_opens i q = record q { port_open = q.port_open || p.opened i }

  -- The endless loop, cut off after `n` rounds; `i` rounds are done.
  unfoldable pub poll : (ℕ → Moment) → ℕ → ℕ → ℕ → M (Unit {0})
  poll env spins zero i q = running q
  poll env spins (suc n) i q =
      (process_qik_state env spins >> poll env spins n (i + 1)) (port_opens i q)

  -- Behind `initializeGpio`.
  unfoldable pub start_threads : (ℕ → Moment) → ℕ → ℕ → Machine → Outcome Machine ℕ
  start_threads env spins n s =
      if not (int_eq p.create_serial (pos 0))
      then error_exit (codes "Error creating serial thread\n") s
      else if not (int_eq p.create_httpd (pos 0))
      then error_exit (codes "Error creating httpd thread\n") (started serial_thread s)
      else on_driver (do initial_info; poll env spins n 0; returned 0)
          (started httpd_thread (started serial_thread s))

  -- `main`, with its endless loop cut off after `n` rounds.
  unfoldable pub main : (ℕ → Moment) → ℕ → ℕ → Machine → Outcome Machine ℕ
  main env spins n = do
    ready ← on_driver initialize_gpio
    (if ready == 0
        then error_exit (codes "Error initializing GPIO\n")
        else start_threads env spins n)
