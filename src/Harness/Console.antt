-- ===== src/Harness/Console.antt =====
-- What harness/harness.c prints.
use simbench.Base.{
  ℕ, ◌<◌, ◌≡◌, refl, ap, ◌∙◌, arith, Bool, true, false, List, [], ◌∷◌, ◌++◌, Option, none, some,
  length,
}
use mathlib.Core.List.{append_assoc}
use simbench.Printf.Stream.{output, fprintf}
use simbench.Printf.Literal.{IsLiteral, fprintf-literal}
use simbench.Harness.Execute.{
  Phase, kernel_init, kernel_control, kernel, kernel_cleanup, Benchmark, Event, said, priv_enter,
  priv_leave, ran, ◌>>◌, event, said_text, call, guarded, control_begin, control_end, kernel_begin,
  kernel_end, header_format, count_format, blank_lines, begin_line, end_line, Output,
  execute_control, execute_kernel, harness_execute, execute_all, harness_main,
}

-- The console's text in a trace.
abbrev pub console : List Event → List ℕ
console [] = []
console (said text ∷ events) = text ++ console events
console (priv_enter ∷ events) = console events
console (priv_leave ∷ events) = console events
console (ran phase text ∷ events) = text ++ console events

-- The stream has a device and the buffer its size.
pub record IsWired {V : Type 0} (o : Output V) : Type 0 where
  pub device : ℕ
  pub there : o.streams.output_file ≡ some device
  pub full : length o.stack ≡ 0x1000

-- The header and the count of a benchmark as they are printed.
pub record IsPrintable {V : Type 0} (o : Output V) (b : Benchmark) : Type 0 where
  pub header : List ℕ
  pub count : List ℕ
  pub header_text :
      said_text
        (fprintf o.arm o.ops o.streams output o.stack header_format (o.two_texts b.category b.name))
      ≡ some (said header ∷ [])
  pub count_text :
      said_text
        (fprintf o.arm o.ops o.streams output o.stack count_format (o.one_count b.iteration_count))
      ≡ some (said count ∷ [])

abbrev pub run_text : Option (List ℕ) → List ℕ
run_text none = []
run_text (some text) = text

-- The markers around the control run and the kernel.
abbrev pub kernel_text : List ℕ → List ℕ → List ℕ
kernel_text text rest = kernel_begin ++ (text ++ (kernel_end ++ rest))

abbrev pub marked_text : Option (List ℕ) → List ℕ → List ℕ → List ℕ
marked_text none text rest = kernel_text text rest
marked_text (some control) text rest =
    control_begin ++ (control ++ (control_end ++ kernel_text text rest))

abbrev pub privileged : Bool → Event → List Event
privileged true e = e ∷ []
privileged false e = []

abbrev pub control_events : Bool → Option (List ℕ) → List Event
control_events p none = []
control_events p (some text) =
    said control_begin
    ∷ (privileged p priv_enter
        ++ (ran kernel_control text ∷ (privileged p priv_leave ++ (said control_end ∷ []))))

abbrev pub kernel_events : Bool → List ℕ → List Event
kernel_events p text =
    said kernel_begin
    ∷ (privileged p priv_enter
        ++ (ran kernel text ∷ (privileged p priv_leave ++ (said kernel_end ∷ []))))

abbrev pub run_events : Phase → Option (List ℕ) → List Event
run_events phase none = []
run_events phase (some text) = ran phase text ∷ []

-- What one benchmark does, in order.
abbrev pub benchmark_events : List ℕ → List ℕ → Benchmark → List Event
benchmark_events header count b =
    said header
    ∷ (run_events kernel_init b.init
        ++ (said count
            ∷ (control_events b.kernel_priv b.control
                ++ (kernel_events b.kernel_priv b.body
                    ++ (run_events kernel_cleanup b.cleanup
                        ++ privileged b.kernel_priv priv_leave)))))

-- A kernel between two markers.
bracket_eq :
    (p : Bool) (phase : Phase) (open_text close_text text : List ℕ)
    → (some (said open_text ∷ [])
        >> (guarded p priv_enter
            >> (event (ran phase text) >> (guarded p priv_leave >> some (said close_text ∷ [])))))
      ≡ some (
          said open_text
          ∷ (privileged p priv_enter
              ++ (ran phase text ∷ (privileged p priv_leave ++ (said close_text ∷ [])))))
bracket_eq true phase open_text close_text text = refl
bracket_eq false phase open_text close_text text = refl

call_eq : (phase : Phase) (f : Option (List ℕ)) → call phase f ≡ some (run_events phase f)
call_eq phase none = refl
call_eq phase (some text) = refl

guarded_eq : (p : Bool) (e : Event) → guarded p e ≡ some (privileged p e)
guarded_eq true e = refl
guarded_eq false e = refl

module _ {V : Type 0} (o : Output V) (w : IsWired o) where
  say_literal :
      (fmt : List ℕ) (args : V)
      → IsLiteral fmt
      → length fmt < 0x1000
      → said_text (fprintf o.arm o.ops o.streams output o.stack fmt args) ≡ some (said fmt ∷ [])
  say_literal fmt args lit short =
      rw
        (fprintf-literal o.arm o.ops o.streams output w.device o.stack fmt args w.there w.full lit
          short)
        refl

  control_eq :
      (p : Bool) (control : Option (List ℕ))
      → execute_control o p control ≡ some (control_events p control)
  unfolding execute_control
  control_eq p none = refl
  control_eq p (some text) =
      let first = say_literal control_begin o.no_args (ground arith) (omega arith) in
      let last = say_literal control_end o.no_args (ground arith) (omega arith) in
      rw (first, last) (bracket_eq p kernel_control control_begin control_end text)

  kernel_eq : (p : Bool) (text : List ℕ) → execute_kernel o p text ≡ some (kernel_events p text)
  unfolding execute_kernel
  kernel_eq p text =
      let first = say_literal kernel_begin o.no_args (ground arith) (omega arith) in
      let last = say_literal kernel_end o.no_args (ground arith) (omega arith) in
      rw (first, last) (bracket_eq p kernel kernel_begin kernel_end text)

  -- `harness_execute` of a printable benchmark does not fail, and does what `benchmark_events` says
  -- in that order.
  pub harness_execute-eq :
      (b : Benchmark) (p : IsPrintable o b)
      → harness_execute o b ≡ some (benchmark_events p.header p.count b)
  unfolding harness_execute
  harness_execute-eq b p =
      rw
        (
          p.header_text,
          p.count_text,
          call_eq kernel_init b.init,
          control_eq b.kernel_priv b.control,
          kernel_eq b.kernel_priv b.body,
          call_eq kernel_cleanup b.cleanup,
          guarded_eq b.kernel_priv priv_leave,
        )
        refl

-- What the parts put on the console, in front of what follows.
run_console :
    (phase : Phase) (f : Option (List ℕ)) (more : List Event)
    → console (run_events phase f ++ more) ≡ run_text f ++ console more
run_console phase none more = refl
run_console phase (some text) more = refl

leave_console :
    (p : Bool) (more : List Event) → console (privileged p priv_leave ++ more) ≡ console more
leave_console true more = refl
leave_console false more = refl

marked_console :
    (p : Bool) (control : Option (List ℕ)) (text : List ℕ) (more : List Event)
    → console (control_events p control ++ (kernel_events p text ++ more))
      ≡ marked_text control text (console more)
marked_console true none text more = refl
marked_console false none text more = refl
marked_console true (some control) text more = refl
marked_console false (some control) text more = refl

-- The text of one benchmark in front of what follows.
abbrev pub benchmark_text : List ℕ → List ℕ → Benchmark → List ℕ → List ℕ
benchmark_text header count b rest =
    header
    ++ (run_text b.init ++ (count ++ marked_text b.control b.body (run_text b.cleanup ++ rest)))

regroup :
    (a c k r p more : List Event) (e : Event)
    → (a ++ (e ∷ (c ++ (k ++ (r ++ p))))) ++ more ≡ a ++ (e ∷ (c ++ (k ++ (r ++ (p ++ more)))))
regroup a c k r p more e = simp append_assoc

pub console-benchmark_events :
    (header count : List ℕ) (b : Benchmark) (more : List Event)
    → console (benchmark_events header count b ++ more)
      ≡ benchmark_text header count b (console more)
console-benchmark_events header count b more =
    ap (λ l. header ++ console l)
      (regroup (run_events kernel_init b.init) (control_events b.kernel_priv b.control)
        (kernel_events b.kernel_priv b.body) (run_events kernel_cleanup b.cleanup)
        (privileged b.kernel_priv priv_leave) more (said count))
    ∙ rw
        (
          run_console kernel_init b.init,
          marked_console b.kernel_priv b.control b.body,
          run_console kernel_cleanup b.cleanup,
          leave_console b.kernel_priv more,
        )
        refl

-- The whole output: what `harness_main` prints for the benchmarks in order.
abbrev pub ArePrintable : {V : Type 0} → Output V → List Benchmark → Type 0
ArePrintable o [] = Unit {0}
ArePrintable o (b ∷ rest) = IsPrintable o b × ArePrintable o rest

abbrev pub all_text :
    {V : Type 0} (o : Output V) (all : List Benchmark) → ArePrintable o all → List ℕ → List ℕ
all_text o [] p tail = tail
all_text o (b ∷ rest) p tail = benchmark_text p.0.header p.0.count b (all_text o rest p.1 tail)

record IsExecuted {V : Type 0} (o : Output V) (all : List Benchmark) (p : ArePrintable o all)
    : Type 0 where
  events : List Event
  done : execute_all o all ≡ some events
  text : (more : List Event) → console (events ++ more) ≡ all_text o all p (console more)

module _ {V : Type 0} (o : Output V) (w : IsWired o) where
  execute_all-IsExecuted : (all : List Benchmark) (p : ArePrintable o all) → IsExecuted o all p
  unfolding execute_all
  execute_all-IsExecuted [] p = record { events = []; done = refl; text = λ more. refl }
  execute_all-IsExecuted (b ∷ rest) p =
      let tail = execute_all-IsExecuted rest p.1 in
      record {
        events = benchmark_events p.0.header p.0.count b ++ tail.events;
        done = rw (harness_execute-eq o w b p.0, tail.done) refl;
        text = λ more.
            ap console (append_assoc (benchmark_events p.0.header p.0.count b) tail.events more)
            ∙ console-benchmark_events p.0.header p.0.count b (tail.events ++ more)
            ∙ ap (benchmark_text p.0.header p.0.count b) (tail.text more);
      }

-- What `harness_main` printed.
pub record IsPrinted {V : Type 0} (o : Output V) (all : List Benchmark) (p : ArePrintable o all)
    : Type 0 where
  pub events : List Event
  pub done : harness_main o all ≡ some events
  pub text : console events ≡ blank_lines ++ (begin_line ++ all_text o all p end_line)

-- Through a console stream with a device, `harness_main` does not fail, and prints the begin line,
-- the text of each benchmark in order and the end line.
pub harness_main-IsPrinted :
    {V : Type 0} (o : Output V) (all : List Benchmark) (p : ArePrintable o all)
    → IsWired o
    → IsPrinted o all p
unfolding harness_main
harness_main-IsPrinted o all p w =
    let blank = say_literal o w blank_lines o.no_args (ground arith) (omega arith) in
    let first = say_literal o w begin_line o.no_args (ground arith) (omega arith) in
    let last = say_literal o w end_line o.no_args (ground arith) (omega arith) in
    let body = execute_all-IsExecuted o w all p in
    record {
      events = said blank_lines ∷ (said begin_line ∷ (body.events ++ (said end_line ∷ [])));
      done = rw (blank, first, body.done, last) refl;
      text = rw (body.text (said end_line ∷ [])) refl;
    }
