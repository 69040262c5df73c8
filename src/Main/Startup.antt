-- ===== src/Main/Startup.antt =====
-- What `main` does before and in the first round of its endless loop.
mod Tests
use telebra.Base.{
  ℕ, ◌+◌, ◌*◌, ◌≤◌, ◌<◌, ◌≡◌, ◌⊎◌, inl, inr, refl, sym, ap, ◌∙◌, Bool, true, false, Bool-cases,
  ◌||◌, List, [], ◌∷◌, ◌++◌, arith, All, ◌==◌, if◌then◌else◌, Bytes, length, codes, pos, int_eq,
  Outcome, returned, running, ◌>>=◌, ◌>>◌, modify, >>=-returned, >>=-running,
}
use telebra.Qik.State.{Qik, M, initial}
use telebra.Qik.Queue.Spans.{Holds-same}
use telebra.Qik.Queue.Fifo.{Frame, encode_all, Queues}
use telebra.Qik.Commands.{get_firmware_version, get_error_byte, get_configuration_parameter}
use telebra.Qik.Commands.Laws.{frame, Apart, Apart-trans}
use telebra.Qik.Commands.Batch.{queue_all, queue_all-Queues}
use telebra.Qik.Serial.{Moment, check_shutoff, dequeue_qik_command, process_qik_state}
use telebra.Qik.Serial.Drain.{Ticks, payloads, dequeue_qik_command-Drained}
use telebra.Main.{
  Platform, Machine, Thread, error_pin, check_error_pin, initialize_gpio, initial_info, port_opens,
  poll, start_threads, serial_thread, httpd_thread, main, on_driver, error_exit, started,
}
use telebra.Main.Steps.{
  initialize_gpio-check_error_pin, initialize_gpio_failed, process_qik_state-dequeue, poll_one,
  booted, on_driver-running, on_driver-returned, zero_result, start_threads-poll,
  main-start_threads,
}

-- The query for the error byte.
abbrev error_query : Frame
error_query = frame (0xaa ∷ 9 ∷ 2 ∷ []) true

-- The queries for the version of the firmware and for the four parameters.
abbrev more_queries : List Frame
more_queries =
    frame (0xaa ∷ 9 ∷ 3 ∷ 0 ∷ []) true
    ∷ frame (0xaa ∷ 9 ∷ 3 ∷ 1 ∷ []) true
    ∷ frame (0xaa ∷ 9 ∷ 3 ∷ 2 ∷ []) true
    ∷ frame (0xaa ∷ 9 ∷ 3 ∷ 3 ∷ []) true
    ∷ []

abbrev queries : List Frame
queries = frame (0xaa ∷ 9 ∷ 1 ∷ []) true ∷ more_queries

queries_short : All (λ h. length h.payload ≤ 16) queries
queries_short = (omega arith, (omega arith, (omega arith, (omega arith, (omega arith, tt)))))

-- The queries of a start: first that for the error byte if the error pin is high.
abbrev pub first_queries : Platform → List Frame
first_queries p = if int_eq (p.gpio_read error_pin) (pos 0) then queries else error_query ∷ queries

initial_info-queue_all : (s : Qik) → initial_info s ≡ queue_all queries s
unfolding initial_info get_firmware_version get_configuration_parameter
initial_info-queue_all s = refl

initial-Queues : Queues initial []
initial-Queues = record {
  holds = record {
    size = refl;
    head_in = omega arith;
    tail_in = omega arith;
    room = omega arith;
    spans = refl;
  };
  short = tt;
}

first_queries_few : (p : Platform) (k : ℕ) → k * length (first_queries p) ≤ k * 6
first_queries_few p k = elim (Bool-cases (int_eq (p.gpio_read error_pin) (pos 0))) [
  | inl low ↦ rw low (omega arith)
  | inr high ↦ rw high (omega arith)
]

-- The error pin and the queries, one after the other.
checked-Queues :
    (p : Platform)
    → (t : Qik) × (u : Qik) × (check_error_pin p initial ≡ returned tt t)
      × (initial_info t ≡ returned tt u)
      × Queues u (first_queries p)
      × (u.mutex ≡ false)
      × Apart initial u
unfolding check_error_pin get_error_byte
checked-Queues p = elim (Bool-cases (int_eq (p.gpio_read error_pin) (pos 0))) [
  | inl low ↦
      let (u, run, q, free, a) =
        queue_all-Queues (frame (0xaa ∷ 9 ∷ 1 ∷ []) true) more_queries initial [] initial-Queues
          refl queries_short (omega arith) in
      rw low (initial, u, refl, initial_info-queue_all initial ∙ run, q, free, a)
  | inr high ↦
      let (t, run, q, free, a) =
        queue_all-Queues error_query [] initial [] initial-Queues refl (omega arith, tt)
          (omega arith) in
      let (u, more, queued, free', b) =
        queue_all-Queues (frame (0xaa ∷ 9 ∷ 1 ∷ []) true) more_queries t (error_query ∷ []) q free
          queries_short (omega arith) in
      rw high (t, u, run, initial_info-queue_all t ∙ more, queued, free', Apart-trans a b)
]

-- A start at which all calls of the GPIO library and of `pthread_create` succeed, up to the end of
-- the first round of the endless loop, with a clock that passes each command's timeout: both threads
-- were created, the queue is empty, and the queries, first that for the error byte if the error pin
-- is high, were written to the port in this order if the serial thread had opened it; otherwise they
-- are lost, as the queue is emptied all the same.
pub main-first_queries :
    (p : Platform) (env : ℕ → Moment) (spins horizon : ℕ)
    → int_eq p.pi_init_failed p.gpio_initialise ≡ false
    → int_eq (pos 0) (p.gpio_set_mode error_pin p.pi_input) ≡ true
    → int_eq (pos 0) (p.gpio_set_pull_up_down error_pin p.pi_pud_down) ≡ true
    → int_eq (pos 0) (p.gpio_set_isr_func error_pin p.rising_edge 0) ≡ true
    → int_eq p.create_serial (pos 0) ≡ true
    → int_eq p.create_httpd (pos 0) ≡ true
    → Ticks env spins horizon
    → (spins + 2) * 6 ≤ horizon
    → (q : Qik) × (main p env spins 1 booted
        ≡ running (record { qik = q; threads = serial_thread ∷ httpd_thread ∷ []; stderr = [] }))
      × Queues q []
      × (q.mutex ≡ false)
      × (q.wire ≡ (if p.opened 0 then payloads (first_queries p) else []))
main-first_queries p env spins horizon a b c d sc hc ticks end =
    let (t, u, checked, asked, queued, free, apart) = checked-Queues p in
    let o = port_opens p 0 u in
    let ready : Machine = record booted { qik = t } in
    let (v, drained, after) =
      dequeue_qik_command-Drained env spins horizon (first_queries p) o ticks
        (record {
          holds = Holds-same o (encode_all (first_queries p)) refl refl refl queued.holds;
          short = queued.short;
        })
        (inl apart.pending_same)
        (omega (arith, apart.moment_same, first_queries_few p (spins + 2))) in
    (
      v,
      main-start_threads p env spins 1 booted t
            (initialize_gpio-check_error_pin p initial t a b c d checked)
          ∙ start_threads-poll p env spins 1 ready u v sc hc asked (
              poll_one p env spins u v
                (process_qik_state-dequeue env spins o apart.shutoff_same ∙ drained)),
      after.queues,
      after.mutex_same ∙ free,
      ground (arith, after.wire_grows, apart.wire_same, apart.port_same),
    )

-- A GPIO call that fails ends `main` with 1: no thread was created, and nothing was queued, also not
-- the query for the error byte.
pub main_gpio_error :
    (p : Platform) (env : ℕ → Moment) (spins n : ℕ) (s : Machine)
    → (int_eq p.pi_init_failed p.gpio_initialise ≡ true)
      ⊎ (int_eq (pos 0) (p.gpio_set_mode error_pin p.pi_input) ≡ false)
      ⊎ (int_eq (pos 0) (p.gpio_set_pull_up_down error_pin p.pi_pud_down) ≡ false)
      ⊎ (int_eq (pos 0) (p.gpio_set_isr_func error_pin p.rising_edge 0) ≡ false)
    → main p env spins n s
      ≡ returned 1 (record s { stderr = s.stderr ++ codes "Error initializing GPIO\n" ∷ [] })
unfolding main
main_gpio_error p env spins n s failed =
    >>=-returned (on_driver (initialize_gpio p))
      (λ ready.
        if ready == 0
        then error_exit (codes "Error initializing GPIO\n")
        else start_threads p env spins n)
      (on_driver-returned (initialize_gpio p) s (initialize_gpio_failed p s.qik failed))
