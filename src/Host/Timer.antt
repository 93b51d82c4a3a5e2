-- ===== src/Host/Timer.antt =====
-- The timing of the benchmarks by host/main.c.
use simbench.Base.{
  ℕ, zero, suc, ◌+◌, ◌-◌, ◌*◌, ◌%◌, ◌^◌, ◌==◌, if◌then◌else◌, List, [], ◌∷◌, Option, none, some,
}
use simbench.Host.Input.{Input, Mark, read_start, read_timing_start_char, read_timing_end_char}

pub record Timespec : Type 0 where
  pub tv_sec : ℕ
  pub tv_nsec : ℕ

-- `benchmark_times_t`; `none` is a member that was never written.
pub record BenchmarkTimes : Type 0 where
  pub control_ticks : ℕ
  pub benchmark_ticks : Option ℕ

abbrev pub ticks : Timespec → ℕ
ticks t = (t.tv_sec * 1000000000 + t.tv_nsec) % 2 ^ 64

unfoldable pub get_ticks_difference : Timespec → Timespec → ℕ
get_ticks_difference start end = (ticks end + 2 ^ 64 - ticks start) % 2 ^ 64

-- What `fscanf` reads in front of the markers.
pub record Header : Type 0 where
  pub category : List ℕ
  pub benchmark : List ℕ
  pub iterations : ℕ

-- `clock` is the monotonic clock, by the number of characters that have been read when
-- `clock_gettime` is called.
module _ (clock : ℕ → Timespec) where
  -- From behind one marker up to the next.
  abbrev pub elapsed : Input → Input → ℕ
  elapsed start end = get_ticks_difference (clock start.taken) (clock end.taken)

  unfoldable pub time_kernel : ℕ → Mark → BenchmarkTimes × Input
  unfolding get_ticks_difference
  time_kernel control_ticks start =
      if start.char == 91
      then (let end = read_timing_end_char 93 start.input in
          (
            record {
              control_ticks = control_ticks;
              benchmark_ticks = some (elapsed start.input end.input);
            },
            end.input,
          ))
      else (record { control_ticks = control_ticks; benchmark_ticks = none }, start.input)

  unfoldable pub time_marked : Mark → BenchmarkTimes × Input
  unfolding time_kernel
  time_marked start =
      if start.char == 123
      then (let end = read_timing_end_char 125 start.input in
          time_kernel (elapsed start.input end.input) (read_timing_start_char end.input))
      else time_kernel 0 start

  unfoldable pub time_benchmarks : Input → BenchmarkTimes × Input
  unfolding time_marked
  time_benchmarks i = time_marked (read_timing_start_char i)

  -- `scan` is `fscanf` with the format of the header; `none` is a result other than 3.
  module _ (scan : Input → Option (Header × Input)) where
    -- `none` is a return of 1.
    unfoldable pub read_benchmark : Input → Option (Header × BenchmarkTimes × Input)
    unfolding time_benchmarks
    read_benchmark i = elim (scan i) [
      | none ↦ none
      | some (header, rest) ↦ let timed = time_benchmarks rest in some (header, timed.0, timed.1)
    ]

    -- The loop of `main`; `none` says that the fuel ran out.
    unfoldable pub read_all : ℕ → Input → Option (List (Header × BenchmarkTimes))
    read_all zero i = none
    read_all (suc fuel) i = elim (read_benchmark i) [
      | none ↦ some []
      | some (header, times, rest) ↦ elim (read_all fuel rest) [
        | none ↦ none
        | some more ↦ some ((header, times) ∷ more)
      ]
    ]

    unfoldable pub host_main : ℕ → Input → Option (List (Header × BenchmarkTimes))
    unfolding read_all
    host_main fuel i = elim (read_start i) [ none ↦ some [] | some rest ↦ read_all fuel rest ]
