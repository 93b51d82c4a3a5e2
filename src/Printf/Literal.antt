-- ===== src/Printf/Literal.antt =====
-- What `fprintf` of util/printf.c puts on a device.
use simbench.Base.{
  ℕ, suc, ◌+◌, ◌-◌, ◌≤◌, ◌<◌, ltb, Bool, true, ◌≡◌, ◌≢◌, refl, sym, ap, arith, List, [], ◌∷◌, ◌++◌,
  some, length, set, length-append, lt→ltb, ne→==,
}
use simbench.Printf.Format.{VarArgs, Printer, plain, put_char, print_loop, vsnprintf}
use simbench.Printf.Stream.{Streams, FilePointer, putch_fn, until_nul, print_to, fprintf}

-- No character is NUL or the percent sign.
abbrev pub IsLiteral : List ℕ → Type 0
IsLiteral [] = Unit {0}
IsLiteral (c ∷ text) = (c ≢ 0) × (c ≢ 37) × IsLiteral text

set-append :
    (out rest : List ℕ) (r c : ℕ) → set (out ++ (r ∷ rest)) (length out) c ≡ out ++ (c ∷ rest)
set-append [] rest r c = refl
set-append (x ∷ out) rest r c = ap (λ l. x ∷ l) (set-append out rest r c)

append_one : (out rest : List ℕ) (c : ℕ) → out ++ (c ∷ rest) ≡ (out ++ (c ∷ [])) ++ rest
append_one [] rest c = refl
append_one (x ∷ out) rest c = ap (λ l. x ∷ l) (append_one out rest c)

append_more : (out text : List ℕ) (c : ℕ) → (out ++ (c ∷ [])) ++ text ≡ out ++ (c ∷ text)
append_more out text c = sym (append_one out text c)

append_nil : (out : List ℕ) → out ++ [] ≡ out
append_nil [] = refl
append_nil (x ∷ out) = ap (λ l. x ∷ l) (append_nil out)

until_nul_literal : (text rest : List ℕ) → IsLiteral text → until_nul (text ++ (0 ∷ rest)) ≡ text
until_nul_literal [] rest h = refl
until_nul_literal (c ∷ text) rest h =
    rw (ne→== c 0 h.0) (ap (λ l. c ∷ l) (until_nul_literal text rest h.2))

-- The buffer starts with `out`, and the count is behind it.
record Holds {V : Type 0} (out : List ℕ) (room : ℕ) (s : Printer V) : Type 0 where
  rest : List ℕ
  buffer_eq : s.buffer ≡ out ++ rest
  count_eq : s.count ≡ length out
  enough : room < length rest

-- One literal character more.
record IsPlaced {V : Type 0} (out : List ℕ) (c n : ℕ) (s : Printer V) : Type 0 where
  after : Printer V
  done : put_char s c s.args ≡ some after
  holds : Holds (out ++ (c ∷ [])) n after

put_char-IsPlaced :
    {V : Type 0} (out rest : List ℕ) (c n : ℕ) (s : Printer V)
    → s.buffer ≡ out ++ rest
    → s.count ≡ length out
    → suc n < length rest
    → IsPlaced out c n s
put_char-IsPlaced out [] c n s b e room = absurd (omega arith)
put_char-IsPlaced out (r ∷ rest) c n s b e room =
    let inside : length out < length (out ++ (r ∷ rest)) =
      omega (arith, length-append out (r ∷ rest)) in
    record {
      after = record s { count = s.count + 1; buffer = out ++ (c ∷ rest) };
      done =
          rw
            (b, e, lt→ltb (length out) (length (out ++ (r ∷ rest))) inside, set-append out rest r c)
            refl;
      holds = record {
        rest = rest;
        buffer_eq = append_one out rest c;
        count_eq = omega (arith, e, length-append out (c ∷ []));
        enough = omega arith;
      };
    }

module _ {V : Type 0} (arm : Bool) (ops : VarArgs V) (size : ℕ) where
  record IsRun (fmt out : List ℕ) (s : Printer V) : Type 0 where
    after : Printer V
    done : print_loop arm ops size plain fmt s ≡ some after
    holds : Holds (out ++ fmt) 0 after

  print_loop-IsRun :
      (fmt out : List ℕ) (s : Printer V)
      → IsLiteral fmt
      → Holds out (length fmt) s
      → length out + length fmt < size
      → IsRun fmt out s
  unfolding print_loop
  print_loop-IsRun [] out s lit h fits = record {
    after = s;
    done = refl;
    holds = rw (append_nil out) h;
  }
  print_loop-IsRun (c ∷ fmt) out s lit h fits =
      let placed = put_char-IsPlaced out h.rest c (length fmt) s h.buffer_eq h.count_eq h.enough in
      let rest =
        print_loop-IsRun fmt (out ++ (c ∷ [])) placed.after lit.2 placed.holds
          (omega (arith, length-append out (c ∷ []))) in
      let room : ltb s.count (size - 1) ≡ true =
        lt→ltb s.count (size - 1) (omega (arith, h.count_eq)) in
      record {
        after = rest.after;
        done = rw (room, ne→== c 37 lit.1, placed.done) rest.done;
        holds = rw (← append_more out fmt c) rest.holds;
      }

  -- The text that a literal format leaves in the buffer.
  record IsText (buffer fmt : List ℕ) (args : V) : Type 0 where
    after : Printer V
    done : vsnprintf arm ops size buffer fmt args ≡ some after
    count_eq : after.count ≡ length fmt
    text_eq : until_nul after.buffer ≡ fmt

  ended :
      (fmt rest buffer : List ℕ) (n : ℕ)
      → IsLiteral fmt
      → buffer ≡ fmt ++ rest
      → n ≡ length fmt
      → 0 < length rest
      → (ltb n (length buffer) ≡ true) × (until_nul (set buffer n 0) ≡ fmt)
  ended fmt [] buffer n lit b e h = absurd (omega arith)
  ended fmt (r ∷ rest) buffer n lit b e h = (
    rw (b, e) (lt→ltb _ _ (omega (arith, length-append fmt (r ∷ rest)))),
    rw (b, e, set-append fmt rest r 0) (until_nul_literal fmt rest lit),
  )

  vsnprintf-IsText :
      (buffer fmt : List ℕ) (args : V)
      → IsLiteral fmt
      → length fmt < size
      → size ≤ length buffer
      → IsText buffer fmt args
  unfolding vsnprintf
  vsnprintf-IsText buffer fmt args lit short fits =
      let start : Printer V = record { count = 0; buffer = buffer; args = args } in
      let run =
        print_loop-IsRun fmt [] start lit
          (record { rest = buffer; buffer_eq = refl; count_eq = refl; enough = omega arith })
          (omega arith) in
      let end =
        ended fmt run.holds.rest run.after.buffer run.after.count lit run.holds.buffer_eq
          run.holds.count_eq run.holds.enough in
      record {
        after = record run.after { buffer = set run.after.buffer run.after.count 0 };
        done = rw (ne→== size 0 (λ e. omega arith), run.done, end.0) refl;
        count_eq = run.holds.count_eq;
        text_eq = end.1;
      }

-- Through a stream with a device, `fprintf` of a format without a percent sign that is shorter than
-- its buffer prints exactly the format's characters and returns their number, whatever the buffer
-- held.
pub fprintf-literal :
    {V : Type 0} (arm : Bool) (ops : VarArgs V) (s : Streams) (f : FilePointer) (device : ℕ)
    (stack fmt : List ℕ) (args : V)
    → putch_fn f s ≡ some device
    → length stack ≡ 0x1000
    → IsLiteral fmt
    → length fmt < 0x1000
    → fprintf arm ops s f stack fmt args
      ≡ some (record { rc = length fmt; device = some device; text = fmt })
unfolding fprintf print_to
fprintf-literal arm ops s f device stack fmt args there full lit short =
    let run = vsnprintf-IsText arm ops 0x1000 stack fmt args lit short (omega arith) in
    rw (there, fprintf) (rw (run.done, print_to) (rw (run.count_eq, run.text_eq) refl))
