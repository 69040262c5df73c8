-- ===== src/Main/Startup/Tests.antt =====
-- The theorems on the start at a concrete platform.
use telebra.Base.{ℕ, ◌+◌, ◌≡◌, refl, true, false, [], ◌∷◌, arith, pos, negsuc, running}
use telebra.Qik.State.{Qik}
use telebra.Qik.Queue.Fifo.{Queues}
use telebra.Qik.Serial.{Moment, get_current_time}
use telebra.Qik.Serial.Drain.{Ticks}
use telebra.Main.{Platform, serial_thread, httpd_thread, main}
use telebra.Main.Steps.{booted}
use telebra.Main.Startup.{main-first_queries}

abbrev seconds : ℕ → Moment
seconds m = record { received = []; tv_sec = m + 1; tv_usec = 0 }

seconds-Ticks : Ticks seconds 1 1000
unfolding get_current_time
seconds-Ticks = record {
  some_spins = omega arith;
  passes = λ j m lt h. (0, omega arith, omega arith);
}

-- The error pin is high, and the port is open when the first round begins.
abbrev board : Platform
board = record {
  pi_init_failed = negsuc 0;
  pi_input = 0;
  pi_pud_down = 1;
  rising_edge = 0;
  gpio_initialise = pos 79;
  gpio_set_mode = λ pin mode. pos 0;
  gpio_set_pull_up_down = λ pin pud. pos 0;
  gpio_set_isr_func = λ pin edge timeout. pos 0;
  gpio_read = λ pin. pos 1;
  create_serial = pos 0;
  create_httpd = pos 0;
  opened = λ i. true;
}

main-first_queries_example :
    (q : Qik) × (main board seconds 1 1 booted
      ≡ running (record { qik = q; threads = serial_thread ∷ httpd_thread ∷ []; stderr = [] }))
    × Queues q []
    × (q.mutex ≡ false)
    × (q.wire
        ≡ (0xaa ∷ 9 ∷ 2 ∷ [])
          ∷ (0xaa ∷ 9 ∷ 1 ∷ [])
          ∷ (0xaa ∷ 9 ∷ 3 ∷ 0 ∷ [])
          ∷ (0xaa ∷ 9 ∷ 3 ∷ 1 ∷ [])
          ∷ (0xaa ∷ 9 ∷ 3 ∷ 2 ∷ [])
          ∷ (0xaa ∷ 9 ∷ 3 ∷ 3 ∷ [])
          ∷ [])
main-first_queries_example =
    main-first_queries board seconds 1 1000 refl refl refl refl refl refl seconds-Ticks
      (omega arith)

abbrev dead_board : Platform
dead_board = record board { gpio_initialise = negsuc 0 }
