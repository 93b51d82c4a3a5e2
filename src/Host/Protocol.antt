-- ===== src/Host/Protocol.antt =====
-- host/main.c on the output of harness/harness.c.
use simbench.Base.{
  ℕ, zero, suc, ◌+◌, ◌<◌, ◌≡◌, refl, sym, ◌∙◌, arith, List, [], ◌∷◌, ◌++◌, Option, none, some,
  length,
}
use simbench.Harness.Execute.{
  Benchmark, Event, Output, begin_line, end_line, blank_lines, harness_main,
}
use simbench.Harness.Console.{
  IsWired, ArePrintable, run_text, marked_text, benchmark_text, all_text, console,
  harness_main-IsPrinted,
}
use simbench.Host.Input.{
  Input, is_spinner, start_char, read_timing_start_char, read_start, find_begin,
}
use simbench.Host.Timer.{
  Timespec, BenchmarkTimes, Header, time_benchmarks, read_benchmark, read_all, host_main,
}
use simbench.Host.Times.{
  IsQuiet, between, control_from, control_to, time_benchmarks-with_control,
  time_benchmarks-without_control,
}

abbrev pub IsQuietRun : Option (List ℕ) → Type 0
IsQuietRun none = Unit {0}
IsQuietRun (some text) = IsQuiet text

-- The times between the markers behind `taken`, and the position behind the last one.
abbrev pub marked_times : (ℕ → Timespec) → ℕ → Option (List ℕ) → List ℕ → BenchmarkTimes
marked_times clock taken none body = record {
  control_ticks = 0;
  benchmark_ticks = some (between clock (taken + 2) (taken + 2 + length body + 1));
}
marked_times clock taken (some control) body = record {
  control_ticks = between clock (control_from taken) (control_to taken control);
  benchmark_ticks = some (
      between clock (control_to taken control + 2)
        (control_to taken control + 2 + length body + 1));
}

abbrev pub marked_end : ℕ → Option (List ℕ) → List ℕ → ℕ
marked_end taken none body = taken + 2 + length body + 1
marked_end taken (some control) body = control_to taken control + 2 + length body + 1

-- A text behind its first character.
abbrev pub behind_first : List ℕ → List ℕ
behind_first [] = []
behind_first (c ∷ text) = text

-- A blank in front of a marker makes no difference to the measurements.
blank_skipped :
    (clock : ℕ → Timespec) (text : List ℕ) (taken : ℕ)
    → time_benchmarks clock (record { left = 32 ∷ text; taken = taken })
      ≡ time_benchmarks clock (record { left = text; taken = suc taken })
unfolding time_benchmarks read_timing_start_char start_char is_spinner
blank_skipped clock text taken = refl

marked_measured :
    (clock : ℕ → Timespec) (control : Option (List ℕ)) (body rest : List ℕ) (taken : ℕ)
    → IsQuietRun control
    → IsQuiet body
    → time_benchmarks clock
        (record { left = behind_first (marked_text control body rest); taken = suc taken })
      ≡ (
        marked_times clock taken control body,
        record { left = 13 ∷ (10 ∷ rest); taken = marked_end taken control body },
      )
marked_measured clock none body rest taken q quiet =
    sym (blank_skipped clock _ taken) ∙ time_benchmarks-without_control clock body rest taken quiet
marked_measured clock (some control) body rest taken q quiet =
    sym (blank_skipped clock _ taken)
    ∙ time_benchmarks-with_control clock control body rest taken q quiet

found_begin :
    (rest : List ℕ)
    → read_start (record { left = blank_lines ++ (begin_line ++ rest); taken = 0 })
      ≡ some (record { left = rest; taken = 24 })
unfolding read_start find_begin
found_begin rest = refl

module _ {V : Type 0} (clock : ℕ → Timespec) (scan : Input → Option (Header × Input))
    (o : Output V) where
  -- `fscanf` reads each header of the output and the blank behind it, at the position `to`: what is
  -- left begins with the first marker. It refuses the end line. `lead` is what stands in front of
  -- the header: the end of the line before it.
  abbrev pub Scans : (all : List Benchmark) → ArePrintable o all → List ℕ → ℕ → Type 0
  Scans [] p lead taken = scan (record { left = lead ++ end_line; taken = taken }) ≡ none
  Scans (b ∷ rest) p lead taken =
      (header : Header) × (to : ℕ) × (scan (record {
        left = lead ++ benchmark_text p.0.header p.0.count b (all_text o rest p.1 end_line);
        taken = taken;
      })
        ≡ some (
          header,
          record {
            left =
                behind_first (
                  marked_text b.control b.body
                    (run_text b.cleanup ++ all_text o rest p.1 end_line));
            taken = suc to;
          },
        ))
      × Scans rest p.1 (13 ∷ (10 ∷ run_text b.cleanup)) (marked_end to b.control b.body)

  abbrev pub AreQuiet : List Benchmark → Type 0
  AreQuiet [] = Unit {0}
  AreQuiet (b ∷ rest) = IsQuietRun b.control × IsQuiet b.body × AreQuiet rest

  -- One entry for each benchmark.
  abbrev pub entries :
      (all : List Benchmark) (p : ArePrintable o all) (lead : List ℕ) (taken : ℕ)
      → Scans all p lead taken
      → List (Header × BenchmarkTimes)
  entries [] p lead taken scans = []
  entries (b ∷ rest) p lead taken scans =
      (scans.0, marked_times clock scans.1 b.control b.body)
      ∷ entries rest p.1 (13 ∷ (10 ∷ run_text b.cleanup)) (marked_end scans.1 b.control b.body)
          scans.3

  read_benchmark_stop : (i : Input) → scan i ≡ none → read_benchmark clock scan i ≡ none
  unfolding read_benchmark
  read_benchmark_stop i e = rw (e, read_benchmark) refl

  read_benchmark_next :
      (i : Input) (header : Header) (rest after : Input) (times : BenchmarkTimes)
      → scan i ≡ some (header, rest)
      → time_benchmarks clock rest ≡ (times, after)
      → read_benchmark clock scan i ≡ some (header, times, after)
  unfolding read_benchmark
  read_benchmark_next i header rest after times e timed = rw (e, read_benchmark) (rw timed refl)

  read_all_stop :
      (fuel : ℕ) (i : Input)
      → read_benchmark clock scan i ≡ none
      → read_all clock scan (suc fuel) i ≡ some []
  unfolding read_all
  read_all_stop fuel i e = rw (e, read_all) refl

  read_all_next :
      (fuel : ℕ) (i : Input) (header : Header) (times : BenchmarkTimes) (after : Input)
      (more : List (Header × BenchmarkTimes))
      → read_benchmark clock scan i ≡ some (header, times, after)
      → read_all clock scan fuel after ≡ some more
      → read_all clock scan (suc fuel) i ≡ some ((header, times) ∷ more)
  unfolding read_all
  read_all_next fuel i header times after more e rest = rw (e, read_all) (rw (rest, read_all) refl)

  read_all-entries :
      (fuel : ℕ) (all : List Benchmark) (p : ArePrintable o all) (lead : List ℕ) (taken : ℕ)
      (scans : Scans all p lead taken)
      → AreQuiet all
      → length all < fuel
      → read_all clock scan fuel
          (record { left = lead ++ all_text o all p end_line; taken = taken })
        ≡ some (entries all p lead taken scans)
  unfolding read_all read_benchmark
  read_all-entries zero all p lead taken scans quiet enough = absurd (omega arith)
  read_all-entries (suc fuel) [] p lead taken scans quiet enough =
      read_all_stop fuel (record { left = lead ++ end_line; taken = taken })
        (read_benchmark_stop (record { left = lead ++ end_line; taken = taken }) scans)
  read_all-entries (suc fuel) (b ∷ rest) p lead taken scans quiet enough =
      let tail = run_text b.cleanup ++ all_text o rest p.1 end_line in
      let after : Input = record {
        left = 13 ∷ (10 ∷ tail);
        taken = marked_end scans.1 b.control b.body;
      } in
      let input : Input = record {
        left = lead ++ benchmark_text p.0.header p.0.count b (all_text o rest p.1 end_line);
        taken = taken;
      } in
      let times = marked_times clock scans.1 b.control b.body in
      read_all_next fuel input scans.0 times after
        (entries rest p.1 (13 ∷ (10 ∷ run_text b.cleanup)) (marked_end scans.1 b.control b.body)
          scans.3)
        (read_benchmark_next input scans.0
          (record { left = behind_first (marked_text b.control b.body tail); taken = suc scans.1 })
          after times scans.2 (marked_measured clock b.control b.body tail scans.1 quiet.0 quiet.1))
        (read_all-entries fuel rest p.1 (13 ∷ (10 ∷ run_text b.cleanup))
          (marked_end scans.1 b.control b.body) scans.3 quiet.2 (omega arith))

  host_main_found :
      (fuel : ℕ) (i rest : Input)
      → read_start i ≡ some rest
      → host_main clock scan fuel i ≡ read_all clock scan fuel rest
  unfolding host_main
  host_main_found fuel i rest e = rw (e, host_main) refl

-- What the host's `main` makes of the output of `harness_main`.
pub record IsReported {V : Type 0} (clock : ℕ → Timespec) (scan : Input → Option (Header × Input))
    (o : Output V) (all : List Benchmark) (p : ArePrintable o all)
    (scans : Scans clock scan o all p [] 24) (fuel : ℕ) : Type 0 where
  pub events : List Event
  pub printed : harness_main o all ≡ some events
  pub reported :
      host_main clock scan fuel (record { left = console events; taken = 0 })
      ≡ some (entries clock scan o all p [] 24 scans)

-- Through a console stream with a device, where the two calls of fprintf for each benchmark
-- succeed, where the kernels print only spinner characters, and where `fscanf` reads each header
-- that the harness prints with the blank behind it and refuses the end line, `main` on the host
-- reads the output of `harness_main` to its end with fuel for one round more than there are
-- benchmarks, and reports one entry for each benchmark in order: the header that was read, the time
-- between the markers of its kernel and, where it has a control run, the time between the markers
-- of that.
pub host_main-IsReported :
    {V : Type 0} (clock : ℕ → Timespec) (scan : Input → Option (Header × Input)) (o : Output V)
    (all : List Benchmark) (p : ArePrintable o all) (scans : Scans clock scan o all p [] 24)
    (fuel : ℕ)
    → IsWired o
    → AreQuiet clock scan o all
    → length all < fuel
    → IsReported clock scan o all p scans fuel
host_main-IsReported clock scan o all p scans fuel w quiet enough =
    let out = harness_main-IsPrinted o all p w in
    let text = all_text o all p end_line in
    record {
      events = out.events;
      printed = out.done;
      reported = rw out.text (
          host_main_found clock scan o fuel
            (record { left = blank_lines ++ (begin_line ++ text); taken = 0 })
            (record { left = text; taken = 24 }) (found_begin text)
          ∙ read_all-entries clock scan o fuel all p [] 24 scans quiet enough);
    }
