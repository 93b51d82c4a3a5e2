-- ===== src/Printf/Stream.antt =====
-- The streams of util/printf.c and the functions around `vsnprintf`.
use simbench.Base.{ℕ, ◌==◌, Bool, if◌then◌else◌, List, [], ◌∷◌, Option, none, some}
use simbench.Printf.Format.{VarArgs, Printer, vsnprintf}

-- The `putch_fn` of the three `FILE` objects, by the number of the device that it prints to; `none`
-- is a null pointer.
pub record Streams : Type 0 where
  pub output_file : Option ℕ
  pub debug_file : Option ℕ
  pub error_file : Option ℕ

-- `OUTPUT`, `DEBUG` and `ERROR`, and a null `FILE *`.
pub data FilePointer : Type 0 where
  null output debug error : FilePointer

abbrev pub putch_fn : FilePointer → Streams → Option ℕ
putch_fn null s = none
putch_fn output s = s.output_file
putch_fn debug s = s.debug_file
putch_fn error s = s.error_file

unfoldable pub printf_register_output : ℕ → Streams → Streams
printf_register_output device s = record s { output_file = some device }

unfoldable pub printf_register_debug : ℕ → Streams → Streams
printf_register_debug device s = record s { debug_file = some device }

unfoldable pub printf_register_error : ℕ → Streams → Streams
printf_register_error device s = record s { error_file = some device }

-- The loop over the buffer, up to its first NUL.
abbrev pub until_nul : List ℕ → List ℕ
until_nul [] = []
until_nul (c ∷ buffer) = let rest = until_nul buffer in if c == 0 then [] else c ∷ rest

-- What was printed: the return value, the device and its characters.
pub record Print : Type 0 where
  pub rc : ℕ
  pub device : Option ℕ
  pub text : List ℕ

module _ {V : Type 0} (arm : Bool) (ops : VarArgs V) where
  unfoldable pub snprintf : List ℕ → ℕ → List ℕ → V → Option (Printer V)
  snprintf buffer size fmt args = vsnprintf arm ops size buffer fmt args

  unfoldable pub sprintf : List ℕ → List ℕ → V → Option (Printer V)
  sprintf buffer fmt args = vsnprintf arm ops 0x1000 buffer fmt args

  -- `stack` is what the 0x1000 characters of the local buffer hold at first.
  unfoldable pub print_to : ℕ → List ℕ → List ℕ → V → Option Print
  print_to device stack fmt args = elim (vsnprintf arm ops 0x1000 stack fmt args) [
    | none ↦ none
    | some s ↦ some (record { rc = s.count; device = some device; text = until_nul s.buffer })
  ]

  unfoldable pub fprintf : Streams → FilePointer → List ℕ → List ℕ → V → Option Print
  fprintf s f stack fmt args = elim (putch_fn f s) [
    | none ↦ some (record { rc = 0; device = none; text = [] })
    | some device ↦ print_to device stack fmt args
  ]
