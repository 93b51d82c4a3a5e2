-- ===== src/Harness/Tests.antt =====
-- The harness on one benchmark, with a list of texts and numbers as the arguments of `fprintf`.
use simbench.Base.{Bool, ℕ, ◌≡◌, refl, arith, false, true, List, [], ◌∷◌, none, some, replicate}
use simbench.Printf.Buffer.{
  append_num, append_str, put_value, put_zero, put_digits, put_pad, put_text, put_fill,
  prepend_to_buffer, shift,
}
use simbench.Printf.Format.{
  VarArgs, vsnprintf, print_loop, convert, put_string, put_bits, put_decimal,
}
use simbench.Printf.Stream.{fprintf, print_to}
use simbench.Printf.Literal.{fprintf-literal}
use simbench.Printf.Stream.{Streams, output}
use simbench.Harness.Execute.{
  Benchmark, Output, control_begin, said, said_text, header_format, count_format,
}
use simbench.Harness.Console.{IsWired, IsPrintable}
use simbench.Harness.Privilege.{Privileges, IsBalanced, harness_execute-IsBalanced}

pub data Arg : Type 0 where
  text : List ℕ → Arg
  number : ℕ → Arg

abbrev pub next_number : List Arg → ℕ × List Arg
next_number [] = (0, [])
next_number (text t ∷ args) = (0, args)
next_number (number n ∷ args) = (n, args)

abbrev pub next_text : List Arg → List ℕ × List Arg
next_text [] = ([], [])
next_text (text t ∷ args) = (t, args)
next_text (number n ∷ args) = ([], args)

abbrev pub typed : VarArgs (List Arg)
typed = record {
  va_int = next_number;
  va_long_long = next_number;
  va_long = next_number;
  va_text = next_text;
}

abbrev pub streams : Streams
streams = record { output_file = some 1; debug_file = none; error_file = some 1 }

abbrev pub wiring : Output (List Arg)
wiring = record {
  arm = false;
  ops = typed;
  streams = streams;
  stack = replicate 0x1000 7;
  no_args = [];
  two_texts = λ a b. text a ∷ (text b ∷ []);
  one_count = λ n. number n ∷ [];
}

pub wiring-IsWired : IsWired wiring
wiring-IsWired = record { device = 1; there = refl; full = refl }

-- "io", "copro", 250 iterations, privileged, with a control run that spins once.
abbrev pub copro : Benchmark
copro = record {
  name = 99 ∷ 112 ∷ [];
  category = 105 ∷ 111 ∷ [];
  init = none;
  body = 8 ∷ 47 ∷ [];
  cleanup = some [];
  control = some (8 ∷ 124 ∷ []);
  iteration_count = 250;
  kernel_priv = true;
}

fprintf-literal_example :
    fprintf false typed streams output (replicate 0x1000 7) control_begin []
    ≡ some (record { rc = 2; device = some 1; text = control_begin })
fprintf-literal_example =
    fprintf-literal false typed streams output 1 (replicate 0x1000 7) control_begin [] refl refl
      (ground arith) (omega arith)

-- "io - cp" and " fa".
abbrev pub copro_header : List ℕ
copro_header = 105 ∷ (111 ∷ (32 ∷ (45 ∷ (32 ∷ (99 ∷ (112 ∷ []))))))

abbrev pub copro_count : List ℕ
copro_count = 32 ∷ (102 ∷ (97 ∷ []))

pub copro_header_text :
    said_text (
      fprintf false typed streams output
        (replicate 0x1000 7)
        header_format
        (text copro.category ∷ (text copro.name ∷ [])))
    ≡ some (said copro_header ∷ [])
unfolding fprintf print_to append_num append_str put_value put_zero put_digits put_pad put_text
    put_fill prepend_to_buffer shift vsnprintf print_loop convert put_string put_bits put_decimal
copro_header_text = refl

pub copro_count_text :
    said_text (
      fprintf false typed streams output
        (replicate 0x1000 7)
        count_format
        (number copro.iteration_count ∷ []))
    ≡ some (said copro_count ∷ [])
unfolding fprintf print_to append_num append_str put_value put_zero put_digits put_pad put_text
    put_fill prepend_to_buffer shift vsnprintf print_loop convert put_string put_bits put_decimal
copro_count_text = refl

abbrev pub copro-IsPrintable : IsPrintable wiring copro
copro-IsPrintable = record {
  header = copro_header;
  count = copro_count;
  header_text = copro_header_text;
  count_text = copro_count_text;
}

-- ARMv8: `true` is exception level 1.
abbrev switching : Privileges Bool
switching = record { enter = λ level. true; leave = λ level. false }

harness_execute-IsBalanced_example : IsBalanced wiring switching false copro
harness_execute-IsBalanced_example =
    harness_execute-IsBalanced wiring switching false copro refl refl wiring-IsWired
      copro-IsPrintable
