-- ===== src/Host/Times.antt =====
-- What host/main.c measures on the markers of harness/harness.c.
use simbench.Base.{
  ℕ, suc, ◌+◌, true, ◌≡◌, ◌≢◌, refl, ◌∙◌, ap, arith, List, [], ◌∷◌, ◌++◌, some, length, eq→==,
  ne→==,
}
use simbench.Harness.Execute.{control_begin, control_end, kernel_begin, kernel_end}
use simbench.Host.Input.{Input, is_spinner, end_char, read_timing_start_char, read_timing_end_char}
use simbench.Host.Timer.{time_benchmarks, time_marked, Timespec, get_ticks_difference, time_kernel}

-- What a kernel may print without an end to the measurement: the characters of the spinner.
abbrev pub IsQuiet : List ℕ → Type 0
IsQuiet [] = Unit {0}
IsQuiet (c ∷ text) = (is_spinner c ≡ true) × IsQuiet text

spinner-ne : (c : ℕ) → is_spinner c ≡ true → (c ≢ 123) × (c ≢ 91) × (c ≢ 125) × (c ≢ 93)
unfolding is_spinner
spinner-ne c h = ground arith

-- The end of a measurement is found behind a quiet text.
end_found :
    (target : ℕ) (text rest : List ℕ) (taken : ℕ)
    → IsQuiet text
    → ((c : ℕ) → is_spinner c ≡ true → c ≢ target)
    → end_char target (text ++ (target ∷ rest)) taken
      ≡ record { char = target; input = record { left = rest; taken = taken + length text + 1 } }
unfolding end_char
end_found target [] rest taken quiet apart =
    let next : suc taken ≡ taken + 0 + 1 = omega arith in rw (eq→== target target refl, next) refl
end_found target (c ∷ text) rest taken quiet apart =
    let next : suc taken + length text + 1 ≡ taken + suc (length text) + 1 = omega arith in
    rw (ne→== c target (apart c quiet.0), quiet.0)
      (end_found target text rest (suc taken) quiet.1 apart
        ∙ ap (λ (n : ℕ). record { char = target; input = record { left = rest; taken = n } }) next)

-- The positions behind the markers of the text that the harness prints for one benchmark.
abbrev pub control_from : ℕ → ℕ
control_from taken = taken + 2

abbrev pub control_to : ℕ → List ℕ → ℕ
control_to taken control = taken + 2 + length control + 1

-- The text that the harness prints between the count and the end of the kernel.
abbrev pub with_control : List ℕ → List ℕ → List ℕ → List ℕ
with_control control body rest =
    control_begin ++ (control ++ (control_end ++ (kernel_begin ++ (body ++ (kernel_end ++ rest)))))

abbrev pub without_control : List ℕ → List ℕ → List ℕ
without_control body rest = kernel_begin ++ (body ++ (kernel_end ++ rest))

module _ (clock : ℕ → Timespec) where
  abbrev pub between : ℕ → ℕ → ℕ
  between a b = get_ticks_difference (clock a) (clock b)

  -- The measurement of the kernel, from the marker in front of it.
  kernel_measured :
      (control_ticks : ℕ) (body rest : List ℕ) (taken : ℕ)
      → IsQuiet body
      → time_kernel clock control_ticks (
          read_timing_start_char
            (record { left = kernel_begin ++ (body ++ (kernel_end ++ rest)); taken = taken }))
        ≡ (
          record {
            control_ticks = control_ticks;
            benchmark_ticks = some (between (taken + 2) (taken + 2 + length body + 1));
          },
          record { left = 13 ∷ (10 ∷ rest); taken = taken + 2 + length body + 1 },
        )
  unfolding time_kernel read_timing_start_char read_timing_end_char
  kernel_measured control_ticks body rest taken quiet =
      let two : suc (suc taken) ≡ taken + 2 = omega arith in
      let found =
        end_found 93 body (13 ∷ (10 ∷ rest)) (taken + 2) quiet (λ c s. (spinner-ne c s).3) in
      rw (two, found) refl

-- The input behind the markers of one benchmark.
abbrev pub behind_kernel : ℕ → List ℕ → List ℕ → Input
behind_kernel taken body rest = record {
  left = 13 ∷ (10 ∷ rest);
  taken = taken + 2 + length body + 1;
}

-- On the markers of a benchmark without a control run, with only spinner characters between them,
-- `time_benchmarks` takes the time from behind the opening marker of the kernel to behind its
-- closing one, gives 0 for the control, and reads no further.
pub time_benchmarks-without_control :
    (clock : ℕ → Timespec) (body rest : List ℕ) (taken : ℕ)
    → IsQuiet body
    → time_benchmarks clock (record { left = without_control body rest; taken = taken }) ≡ (
      record {
        control_ticks = 0;
        benchmark_ticks = some (between clock (taken + 2) (taken + 2 + length body + 1));
      },
      behind_kernel taken body rest,
    )
unfolding time_benchmarks time_marked read_timing_start_char
time_benchmarks-without_control clock body rest taken quiet =
    kernel_measured clock 0 body rest taken quiet

-- On the markers of a benchmark with a control run, with only spinner characters between them,
-- `time_benchmarks` takes both times, each from behind an opening marker to behind the closing one,
-- and reads no further.
pub time_benchmarks-with_control :
    (clock : ℕ → Timespec) (control body rest : List ℕ) (taken : ℕ)
    → IsQuiet control
    → IsQuiet body
    → time_benchmarks clock (record { left = with_control control body rest; taken = taken }) ≡ (
      record {
        control_ticks = between clock (control_from taken) (control_to taken control);
        benchmark_ticks = some (
            between clock
              (control_to taken control + 2)
              (control_to taken control + 2 + length body + 1));
      },
      behind_kernel (control_to taken control) body rest,
    )
unfolding time_benchmarks time_marked read_timing_start_char read_timing_end_char
time_benchmarks-with_control clock control body rest taken quiet quiet' =
    let two : suc (suc taken) ≡ taken + 2 = omega arith in
    let found =
      end_found 125 control (without_control body rest) (taken + 2) quiet
        (λ c s. (spinner-ne c s).2) in
    rw (two, found)
      (kernel_measured clock (between clock (control_from taken) (control_to taken control)) body
        rest (control_to taken control) quiet')
