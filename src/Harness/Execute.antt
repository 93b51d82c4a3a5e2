-- ===== src/Harness/Execute.antt =====
-- `harness_execute` and `harness_main` of harness/harness.c, as the trace of what they do.
use simbench.Base.{ℕ, Bool, true, false, List, [], ◌∷◌, ◌++◌, Option, none, some}
use simbench.Printf.Format.{VarArgs}
use simbench.Printf.Stream.{Streams, output, Print, fprintf}

-- The function pointers of a benchmark.
pub data Phase : Type 0 where
  kernel_init kernel_control kernel kernel_cleanup : Phase

-- `benchmark_t` of include/benchmark.h. A kernel is the text that it prints on the console while it
-- runs, `none` is a null pointer.
pub record Benchmark : Type 0 where
  pub name : List ℕ
  pub category : List ℕ
  pub init : Option (List ℕ)
  pub body : List ℕ
  pub cleanup : Option (List ℕ)
  pub control : Option (List ℕ)
  pub iteration_count : ℕ
  pub kernel_priv : Bool

pub data Event : Type 0 where
  said : List ℕ → Event
  priv_enter priv_leave : Event
  ran : Phase → List ℕ → Event

-- Some statements, with what they did; `none` is a fault in `fprintf`.
abbrev pub Trace : Type 0
Trace = Option (List Event)

infixl 5 ◌>>◌
abbrev pub ◌>>◌ : Trace → Trace → Trace
none >> k = none
some done >> none = none
some done >> some rest = some (done ++ rest)

abbrev pub skip : Trace
skip = some []

abbrev pub event : Event → Trace
event e = some (e ∷ [])

-- `if (f) f();`
abbrev pub call : Phase → Option (List ℕ) → Trace
call phase none = skip
call phase (some text) = event (ran phase text)

abbrev pub guarded : Bool → Event → Trace
guarded true e = event e
guarded false e = skip

abbrev pub said_text : Option Print → Trace
said_text none = none
said_text (some p) = event (said p.text)

-- " {", "}", " [", "]\r\n", "%s - %s" and " %x".
abbrev pub control_begin : List ℕ
control_begin = 32 ∷ 123 ∷ []

abbrev pub control_end : List ℕ
control_end = 125 ∷ []

abbrev pub kernel_begin : List ℕ
kernel_begin = 32 ∷ 91 ∷ []

abbrev pub kernel_end : List ℕ
kernel_end = 93 ∷ 13 ∷ 10 ∷ []

abbrev pub header_format : List ℕ
header_format = 37 ∷ 115 ∷ 32 ∷ 45 ∷ 32 ∷ 37 ∷ 115 ∷ []

abbrev pub count_format : List ℕ
count_format = 32 ∷ 37 ∷ 120 ∷ []

-- "\r\n\r\n", "\\BENCHMARKS BEGIN\r\n" and "\\BENCHMARKS END\r\n", each with two backslashes.
abbrev pub blank_lines : List ℕ
blank_lines = 13 ∷ 10 ∷ 13 ∷ 10 ∷ []

abbrev pub benchmarks : List ℕ
benchmarks = 92 ∷ 92 ∷ 66 ∷ 69 ∷ 78 ∷ 67 ∷ 72 ∷ 77 ∷ 65 ∷ 82 ∷ 75 ∷ 83 ∷ 32 ∷ []

abbrev pub begin_line : List ℕ
begin_line = benchmarks ++ (66 ∷ 69 ∷ 71 ∷ 73 ∷ 78 ∷ 13 ∷ 10 ∷ [])

abbrev pub end_line : List ℕ
end_line = benchmarks ++ (69 ∷ 78 ∷ 68 ∷ 13 ∷ 10 ∷ [])

-- How `fprintf` is called: the build's __ARM, the compiler's passing of the arguments, the streams
-- and what the stack holds.
pub record Output (V : Type 0) : Type 0 where
  pub arm : Bool
  pub ops : VarArgs V
  pub streams : Streams
  pub stack : List ℕ
  pub no_args : V
  pub two_texts : List ℕ → List ℕ → V
  pub one_count : ℕ → V

module _ {V : Type 0} (o : Output V) where
  abbrev pub say : List ℕ → V → Trace
  say fmt args = said_text (fprintf o.arm o.ops o.streams output o.stack fmt args)

  unfoldable pub execute_control : Bool → Option (List ℕ) → Trace
  execute_control kernel_priv none = skip
  execute_control kernel_priv (some text) = do
    say control_begin o.no_args
    guarded kernel_priv priv_enter
    event (ran kernel_control text)
    guarded kernel_priv priv_leave
    say control_end o.no_args

  unfoldable pub execute_kernel : Bool → List ℕ → Trace
  execute_kernel kernel_priv text = do
    say kernel_begin o.no_args
    guarded kernel_priv priv_enter
    event (ran kernel text)
    guarded kernel_priv priv_leave
    say kernel_end o.no_args

  unfoldable pub harness_execute : Benchmark → Trace
  harness_execute b = do
    say header_format (o.two_texts b.category b.name)
    call kernel_init b.init
    say count_format (o.one_count b.iteration_count)
    execute_control b.kernel_priv b.control
    execute_kernel b.kernel_priv b.body
    call kernel_cleanup b.cleanup
    guarded b.kernel_priv priv_leave

  unfoldable pub execute_all : List Benchmark → Trace
  execute_all [] = skip
  execute_all (b ∷ rest) = do harness_execute b; execute_all rest

  unfoldable pub harness_main : List Benchmark → Trace
  harness_main all = do
    say blank_lines o.no_args
    say begin_line o.no_args
    execute_all all
    say end_line o.no_args
