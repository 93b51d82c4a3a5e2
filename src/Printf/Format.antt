-- ===== src/Printf/Format.antt =====
-- `vsnprintf` of util/printf.c.
use simbench.Base.{
  ℕ, ◌+◌, ◌-◌, ◌*◌, ◌%◌, ◌^◌, ◌==◌, ltb, leb, Bool, true, false, ◌&&◌, ◌||◌, if◌then◌else◌, List,
  [], ◌∷◌, Option, some,
}
use simbench.Printf.Buffer.{write, ◌>>=◌, append_num, append_str}

-- The compiler's `va_arg` at the types that the code asks for: an `int` or `unsigned int` as 32
-- bits, a `long long` as 64, an `unsigned long`, and the characters of a text up to its NUL.
pub record VarArgs (V : Type 0) : Type 0 where
  pub va_int : V → ℕ × V
  pub va_long_long : V → ℕ × V
  pub va_long : V → ℕ × V
  pub va_text : V → List ℕ × V

-- `count`, which is also `buffer - buffer_base`, the buffer and the arguments that are left.
pub record Printer (V : Type 0) : Type 0 where
  pub count : ℕ
  pub buffer : List ℕ
  pub args : V

-- Between a `%` and its conversion: `pad_size`, `pad_char` and whether `number_size` is 8. A pad
-- size is a number without bound; the C code's overflow of its `int` is undefined.
pub data Mode : Type 0 where
  plain : Mode
  directive : ℕ → ℕ → Bool → Mode

-- An `int` as a `long long`.
abbrev pub sign_extend : ℕ → ℕ
sign_extend v = if ltb (v % 2 ^ 32) (2 ^ 31) then v % 2 ^ 32 else v % 2 ^ 32 + 2 ^ 64 - 2 ^ 32

module _ {V : Type 0} where
  abbrev pub advance : Printer V → Option (ℕ × List ℕ) → V → Option (Printer V)
  advance s put args = do
    done ← put
    some (record { count = s.count + done.0; buffer = done.1; args = args })

  abbrev pub put_char : Printer V → ℕ → V → Option (Printer V)
  put_char s c args = do
    done ← write s.count c s.buffer
    some (record { count = s.count + 1; buffer = done; args = args })

  module _ (arm : Bool) (ops : VarArgs V) (size : ℕ) where
    -- `%d` and `%u`.
    unfoldable pub put_decimal : Bool → ℕ → ℕ → Bool → Printer V → Option (Printer V)
    put_decimal sgn pad_size pad_char wide s =
        let got = if wide then ops.va_long_long s.args else ops.va_int s.args in
        let v = if wide then got.0 else sign_extend got.0 in
        advance s (append_num arm s.count (size - 1 - s.count) v 10 sgn pad_size pad_char s.buffer)
          got.1

    -- `%b`, `%x` and `%p`, which puts "0x" in front.
    unfoldable pub put_bits : ℕ → Bool → ℕ → ℕ → Bool → Printer V → Option (Printer V)
    put_bits base pointer pad_size pad_char wide s = do
      let got =
          if wide
          then ops.va_long_long s.args
          else (if pointer then ops.va_long s.args else ops.va_int s.args)
      let v = if wide || pointer then got.0 else got.0 % 2 ^ 32
      led ←
          (if pointer
            then advance s (append_str s.count (size - 1 - s.count) (48 ∷ 120 ∷ []) 0 32 s.buffer)
                got.1
            else some s)
      advance led
          (append_num arm led.count (size - 1 - led.count) v base false pad_size pad_char
            led.buffer)
          got.1

    unfoldable pub put_string : ℕ → ℕ → Printer V → Option (Printer V)
    put_string pad_size pad_char s =
        let got = ops.va_text s.args in
        advance s (append_str s.count (size - 1 - s.count) got.0 pad_size pad_char s.buffer) got.1

    -- The conversions: `d`, `u`, `b`, `x`, `p`, `s`, `c` and any other character.
    unfoldable pub convert : ℕ → ℕ → Bool → ℕ → Printer V → Option (Printer V)
    convert pad_size pad_char wide c s =
        if c == 100 || c == 117
        then put_decimal (c == 100) pad_size pad_char wide s
        else (if c == 98 || (c == 120 || c == 112)
            then put_bits (if c == 98 then 2 else 16) (c == 112) pad_size pad_char wide s
            else (if c == 115
                then put_string pad_size pad_char s
                else (if c == 99
                    then put_char s ((ops.va_int s.args).0 % 2 ^ 8) (ops.va_int s.args).1
                    else put_char s c s.args)))

    -- The loop over the format, which ends with its NUL. In a directive `0` and `1` to `9` are the
    -- pad and `l` the number's size.
    unfoldable pub print_loop : Mode → List ℕ → Printer V → Option (Printer V)
    print_loop mode [] s = some s
    print_loop plain (c ∷ fmt) s =
        let rest = λ (mode : Mode) (after : Printer V). print_loop mode fmt after in
        if ltb s.count (size - 1)
        then (if c == 37
            then rest (directive 0 32 false) s
            else (do more ← put_char s c s.args; rest plain more))
        else some s
    print_loop (directive pad_size pad_char wide) (c ∷ fmt) s =
        let rest = λ (mode : Mode) (after : Printer V). print_loop mode fmt after in
        if c == 48
        then rest
            (if ltb 0 pad_size
              then directive (pad_size * 10) pad_char wide
              else directive pad_size 48 wide)
            s
        else (if leb 49 c && leb c 57
            then rest (directive (pad_size * 10 + (c - 48)) pad_char wide) s
            else (if c == 108
                then rest (directive pad_size pad_char true) s
                else (do more ← convert pad_size pad_char wide c s; rest plain more)))

    unfoldable pub vsnprintf : List ℕ → List ℕ → V → Option (Printer V)
    vsnprintf buffer fmt args =
        if size == 0 then some (record { count = 0; buffer = buffer; args = args }) else (do
          s ← print_loop plain fmt (record { count = 0; buffer = buffer; args = args })
          ended ← write s.count 0 s.buffer
          some (record s { buffer = ended }))
