-- ===== src/Printf/Bounds.antt =====
-- `vsnprintf` of util/printf.c stays within its buffer and ends it with a NUL.
use simbench.Base.{
  ℕ, ◌+◌, ◌-◌, ◌*◌, ◌%◌, ◌^◌, ◌≤◌, ◌<◌, ◌==◌, ltb, leb, Bool, true, false, ◌&&◌, ◌||◌,
  if◌then◌else◌, ◌≡◌, inl, inr, refl, ◌∙◌, arith, List, [], ◌∷◌, Option, some, length, set,
  get_elem?, length-set, lt→ltb, le→ltb, ne→==, Bool-cases,
}
use native.Mathlib.Decide.{dec_lt}
use simbench.Printf.Format.{
  VarArgs, Printer, Mode, plain, directive, advance, put_char, put_decimal, put_bits, put_string,
  convert, print_loop, vsnprintf,
}
use simbench.Printf.Writes.{
  IsWithin, IsWithin-nothing, IsWithin-then, write-IsRun, get_elem?-set, get_elem?-set-other,
}
use simbench.Printf.Number.{IsPut, append_num-IsPut, append_str-IsPut}

module _ {V : Type 0} (size : ℕ) where
  -- A run that returns with the count below `size`, and changes only characters below `size - 1`.
  pub record IsStep (s : Printer V) (run : Option (Printer V)) : Type 0 where
    pub after : Printer V
    pub done : run ≡ some after
    pub bound : after.count < size
    pub within : IsWithin 0 (size - 1) s.buffer after.buffer

  IsStep-nothing : (s : Printer V) → s.count < size → IsStep s (some s)
  IsStep-nothing s h = record {
    after = s;
    done = refl;
    bound = h;
    within = IsWithin-nothing 0 (size - 1) s.buffer;
  }

  IsStep-behind :
      {s middle : Printer V} {run : Option (Printer V)}
      → IsWithin 0 (size - 1) s.buffer middle.buffer
      → IsStep middle run
      → IsStep s run
  IsStep-behind w r = record {
    after = r.after;
    done = r.done;
    bound = r.bound;
    within =
        IsWithin-then 0 (size - 1) w r.within (omega arith) (omega arith) (omega arith)
          (omega arith);
  }

  advance-IsStep :
      (s : Printer V) (args : V) {run : Option (ℕ × List ℕ)}
      → s.count < size
      → IsPut s.count (size - 1 - s.count) s.buffer run
      → IsStep s (advance s run args)
  advance-IsStep s args h put = record {
    after = record { count = s.count + put.count; buffer = put.after; args = args };
    done = rw put.done refl;
    bound = omega (arith, put.bound);
    within =
        IsWithin-then 0 (size - 1) (IsWithin-nothing 0 0 s.buffer) put.within (omega arith)
          (omega arith) (omega arith) (omega arith);
  }

  put_char-IsStep :
      (s : Printer V) (c : ℕ) (args : V)
      → s.count < size - 1
      → size ≤ length s.buffer
      → IsStep s (put_char s c args)
  put_char-IsStep s c args h fits =
      let put = write-IsRun s.count c s.buffer (omega arith) in
      record {
        after = record { count = s.count + 1; buffer = put.after; args = args };
        done = rw put.done refl;
        bound = omega arith;
        within =
            IsWithin-then 0 (size - 1) (IsWithin-nothing 0 0 s.buffer) put.within (omega arith)
              (omega arith) (omega arith) (omega arith);
      }

  module _ (arm : Bool) (ops : VarArgs V) where
    put_decimal-IsStep :
        (sgn : Bool) (pad_size pad_char : ℕ) (wide : Bool) (s : Printer V)
        → s.count < size - 1
        → size ≤ length s.buffer
        → IsStep s (put_decimal arm ops size sgn pad_size pad_char wide s)
    unfolding put_decimal
    put_decimal-IsStep sgn pad_size pad_char wide s h fits = advance-IsStep s _ (omega arith) (
        append_num-IsPut arm sgn s.count (size - 1 - s.count) _ 10 pad_size pad_char s.buffer
          (inl (omega arith)) (omega arith))

    put_bits-IsStep :
        (base : ℕ) (pointer : Bool) (pad_size pad_char : ℕ) (wide : Bool) (s : Printer V)
        → s.count < size - 1
        → size ≤ length s.buffer
        → IsStep s (put_bits arm ops size base pointer pad_size pad_char wide s)
    unfolding put_bits
    put_bits-IsStep base false pad_size pad_char wide s h fits = advance-IsStep s _ (omega arith) (
        append_num-IsPut arm false s.count (size - 1 - s.count) _ base pad_size pad_char s.buffer
          (inr refl) (omega arith))
    put_bits-IsStep base true pad_size pad_char wide s h fits =
        let got = if wide then ops.va_long_long s.args else ops.va_long s.args in
        let led = advance-IsStep s got.1 (omega arith) (
          append_str-IsPut s.count (size - 1 - s.count) 0 32 (48 ∷ 120 ∷ []) s.buffer
            (omega arith)) in
        rw led.done (
          IsStep-behind led.within (
            advance-IsStep led.after got.1 led.bound (
              append_num-IsPut arm false led.after.count (size - 1 - led.after.count)
                (if wide || true then got.0 else got.0 % 2 ^ 32) base pad_size pad_char
                led.after.buffer (inr refl) (omega (arith, led.bound, led.within.length_same)))))

    put_string-IsStep :
        (pad_size pad_char : ℕ) (s : Printer V)
        → s.count < size - 1
        → size ≤ length s.buffer
        → IsStep s (put_string arm ops size pad_size pad_char s)
    unfolding put_string
    put_string-IsStep pad_size pad_char s h fits =
        advance-IsStep s _ (omega arith)
          (append_str-IsPut s.count (size - 1 - s.count) pad_size pad_char _ s.buffer (omega arith))

    convert-IsStep :
        (pad_size pad_char : ℕ) (wide : Bool) (c : ℕ) (s : Printer V)
        → s.count < size - 1
        → size ≤ length s.buffer
        → IsStep s (convert arm ops size pad_size pad_char wide c s)
    unfolding convert
    convert-IsStep pad_size pad_char wide c s h fits =
        pick (c == 100 || c == 117) (put_decimal-IsStep (c == 100) pad_size pad_char wide s h fits)
          (pick (c == 98 || (c == 120 || c == 112))
            (put_bits-IsStep (if c == 98 then 2 else 16) (c == 112) pad_size pad_char wide s h fits)
            (pick (c == 115) (put_string-IsStep pad_size pad_char s h fits)
              (pick (c == 99) (put_char-IsStep s _ _ h fits) (put_char-IsStep s c s.args h fits))))
      where
        pick :
            (b : Bool) {x y : Option (Printer V)}
            → IsStep s x
            → IsStep s y
            → IsStep s (if b then x else y)
        pick true p q = p
        pick false p q = q

    -- Inside a directive there is room for one character.
    abbrev HasRoom : Mode → Printer V → Type 0
    HasRoom plain s = s.count < size
    HasRoom (directive pad_size pad_char wide) s = s.count < size - 1

    print_loop-IsStep :
        (mode : Mode) (fmt : List ℕ) (s : Printer V)
        → HasRoom mode s
        → size ≤ length s.buffer
        → IsStep s (print_loop arm ops size mode fmt s)
    unfolding print_loop
    print_loop-IsStep plain [] s h fits = IsStep-nothing s h
    print_loop-IsStep (directive pad_size pad_char wide) [] s h fits =
        IsStep-nothing s (omega arith)
    print_loop-IsStep plain (c ∷ fmt) s h fits = elim (dec_lt s.count (size - 1)) [
      | no full ↦ rw (le→ltb s.count (size - 1) (omega arith)) (IsStep-nothing s h)
      | yes more ↦ rw (lt→ltb s.count (size - 1) more) (elim (Bool-cases (c == 37)) [
        | inl e ↦ rw e (print_loop-IsStep (directive 0 32 false) fmt s more fits)
        | inr e ↦
            let put = put_char-IsStep s c s.args more fits in
            rw (e, put.done)
              (IsStep-behind put.within (
                print_loop-IsStep plain fmt put.after put.bound
                  (omega (arith, put.within.length_same))))
      ])
    ]
    print_loop-IsStep (directive pad_size pad_char wide) (c ∷ fmt) s h fits =
        elim (Bool-cases (c == 48)) [
          | inl e ↦ elim (Bool-cases (ltb 0 pad_size)) [
            | inl e' ↦
                rw (e, e')
                  (print_loop-IsStep (directive (pad_size * 10) pad_char wide) fmt s h fits)
            | inr e' ↦ rw (e, e') (print_loop-IsStep (directive pad_size 48 wide) fmt s h fits)
          ]
          | inr e ↦ elim (Bool-cases (leb 49 c && leb c 57)) [
            | inl e' ↦
                rw (e, e')
                  (print_loop-IsStep (directive (pad_size * 10 + (c - 48)) pad_char wide) fmt s h
                    fits)
            | inr e' ↦ elim (Bool-cases (c == 108)) [
              | inl e'' ↦
                  rw (e, e', e'')
                    (print_loop-IsStep (directive pad_size pad_char true) fmt s h fits)
              | inr e'' ↦
                  let put = convert-IsStep pad_size pad_char wide c s h fits in
                  rw (e, e', e'', put.done)
                    (IsStep-behind put.within (
                      print_loop-IsStep plain fmt put.after put.bound
                        (omega (arith, put.within.length_same))))
            ]
          ]
        ]

-- What `vsnprintf` did with a buffer of at least `size` characters: it returns a count below `size`,
-- the buffer has a NUL there, and its characters from `size` on are as they were.
pub record IsPrinted {V : Type 0} (arm : Bool) (ops : VarArgs V) (size : ℕ) (buffer fmt : List ℕ)
    (args : V) : Type 0 where
  pub after : Printer V
  pub done : vsnprintf arm ops size buffer fmt args ≡ some after
  pub bound : after.count < size
  pub ended : get_elem? after.buffer after.count ≡ some 0
  pub length_same : length after.buffer ≡ length buffer
  pub beyond : (i : ℕ) → size ≤ i → get_elem? after.buffer i ≡ get_elem? buffer i

-- With a size that is not 0 and a buffer of at least that many characters, `vsnprintf` returns for
-- every format and all arguments and never leaves the buffer: its count is below the size, the
-- character there is NUL, and the buffer behind the size is unchanged.
pub vsnprintf-IsPrinted :
    {V : Type 0} (arm : Bool) (ops : VarArgs V) (size : ℕ) (buffer fmt : List ℕ) (args : V)
    → 1 ≤ size
    → size ≤ length buffer
    → IsPrinted arm ops size buffer fmt args
unfolding vsnprintf
vsnprintf-IsPrinted {V} arm ops size buffer fmt args some_room fits =
    let start : Printer V = record { count = 0; buffer = buffer; args = args } in
    let printed = print_loop-IsStep size arm ops plain fmt start some_room fits in
    let inside : printed.after.count < length printed.after.buffer =
      omega (arith, printed.bound, printed.within.length_same) in
    record {
      after = record printed.after { buffer = set printed.after.buffer printed.after.count 0 };
      done =
          rw
            (
              ne→== size 0 (λ e. omega arith),
              printed.done,
              lt→ltb printed.after.count (length printed.after.buffer) inside,
            )
            refl;
      bound = printed.bound;
      ended = get_elem?-set printed.after.buffer printed.after.count 0 inside;
      length_same =
          length-set printed.after.buffer printed.after.count 0 ∙ printed.within.length_same;
      beyond = λ i h.
          get_elem?-set-other printed.after.buffer printed.after.count i 0
            (inl (omega (arith, printed.bound)))
          ∙ printed.within.outside i (omega arith);
    }
