-- ===== src/Printf/Tests.antt =====
-- Formats at concrete arguments; a list of words stands for the argument list.
use simbench.Base.{
  ℕ, ◌-◌, ◌^◌, ◌≡◌, refl, arith, inl, false, true, List, [], ◌∷◌, none, some, replicate, take,
}
use simbench.Printf.Buffer.{
  append_num, append_str, put_value, put_zero, put_digits, put_pad, put_text, put_fill,
  prepend_to_buffer, shift,
}
use simbench.Printf.Format.{
  VarArgs, vsnprintf, print_loop, convert, put_string, put_bits, put_decimal,
}
use simbench.Printf.Number.{IsPut, append_num-IsPut}
use simbench.Printf.Bounds.{IsPrinted, vsnprintf-IsPrinted}

-- The next word, or 0.
abbrev pop : List ℕ → ℕ × List ℕ
pop [] = (0, [])
pop (x ∷ xs) = (x, xs)

-- Every text argument is "ok".
abbrev words : VarArgs (List ℕ)
words = record {
  va_int = pop;
  va_long_long = pop;
  va_long = pop;
  va_text = λ args. (111 ∷ 107 ∷ [], (pop args).1);
}

abbrev printed : ℕ → List ℕ → List ℕ → List ℕ
printed size fmt args = elim (vsnprintf false words size (replicate 16 7) fmt args) [
  | none ↦ []
  | some s ↦ take s.count s.buffer
]

-- "a%xz" of 0xbee.
run_hex : printed 16 (97 ∷ 37 ∷ 120 ∷ 122 ∷ []) (0xbee ∷ []) ≡ 97 ∷ 98 ∷ 101 ∷ 101 ∷ 122 ∷ []
unfolding append_num append_str put_value put_zero put_digits put_pad put_text put_fill
    prepend_to_buffer shift vsnprintf print_loop convert put_string put_bits put_decimal
run_hex = refl

-- "%04d" of 42 is "0042".
run_pad : printed 16 (37 ∷ 48 ∷ 52 ∷ 100 ∷ []) (42 ∷ []) ≡ 48 ∷ 48 ∷ 52 ∷ 50 ∷ []
unfolding append_num append_str put_value put_zero put_digits put_pad put_text put_fill
    prepend_to_buffer shift vsnprintf print_loop convert put_string put_bits put_decimal
run_pad = refl

-- "%d" of -5 puts the digit before the sign.
run_negative : printed 16 (37 ∷ 100 ∷ []) ((2 ^ 32 - 5) ∷ []) ≡ 53 ∷ 45 ∷ []
unfolding append_num append_str put_value put_zero put_digits put_pad put_text put_fill
    prepend_to_buffer shift vsnprintf print_loop convert put_string put_bits put_decimal
run_negative = refl

-- "%lx" of 2^64 - 1 fills the buffer.
run_wide : printed 16 (37 ∷ 108 ∷ 120 ∷ []) ((2 ^ 64 - 1) ∷ []) ≡ replicate 15 102
unfolding append_num append_str put_value put_zero put_digits put_pad put_text put_fill
    prepend_to_buffer shift vsnprintf print_loop convert put_string put_bits put_decimal
run_wide = refl

append_num-IsPut_example :
    IsPut 2 5 (replicate 8 7) (append_num false 2 5 (2 ^ 64 - 1234567) 10 true 9 32 (replicate 8 7))
append_num-IsPut_example =
    append_num-IsPut false true 2 5 (2 ^ 64 - 1234567) 10 9 32 (replicate 8 7) (inl (omega arith))
      (omega arith)

-- "%p %s".
vsnprintf-IsPrinted_example :
    IsPrinted false words 6 (replicate 16 7) (37 ∷ 112 ∷ 32 ∷ 37 ∷ 115 ∷ []) (0xdeadbeef ∷ 1 ∷ [])
vsnprintf-IsPrinted_example =
    vsnprintf-IsPrinted false words 6 (replicate 16 7) (37 ∷ 112 ∷ 32 ∷ 37 ∷ 115 ∷ [])
      (0xdeadbeef ∷ 1 ∷ []) (omega arith) (omega arith)
