-- ===== src/Printf/Number.antt =====
-- `append_num` and `append_str` of util/printf.c stay within the room that they are given.
use simbench.Base.{
  ℕ, zero, suc, ◌+◌, ◌-◌, ◌/◌, ◌%◌, ◌^◌, ◌≤◌, ◌==◌, ltb, leb, min, Bool, false, not, ◌&&◌,
  if◌then◌else◌, ◌≡◌, ◌⊎◌, inl, inr, refl, arith, List, [], ◌∷◌, Option, some, length, lt→ltb,
  le→ltb, Bool-cases,
}
use native.Mathlib.Decide.{dec_lt}
use simbench.Printf.Buffer.{
  digit_char, through_int, put_digits, put_pad, put_zero, put_value, append_num, put_text, put_fill,
  append_str,
}
use simbench.Printf.Writes.{IsWithin, IsWithin-nothing, IsWithin-then, write-IsRun, prepend-IsRun}

-- A run that returns at most `size` characters and changes only those from `p` to below `p + size`.
pub record IsPut (p size : ℕ) (buf : List ℕ) (run : Option (ℕ × List ℕ)) : Type 0 where
  pub count : ℕ
  pub after : List ℕ
  pub done : run ≡ some (count, after)
  pub bound : count ≤ size
  pub within : IsWithin p (p + size) buf after

pub IsPut-nothing : (p size n : ℕ) (buf : List ℕ) → n ≤ size → IsPut p size buf (some (n, buf))
IsPut-nothing p size n buf h = record {
  count = n;
  after = buf;
  done = refl;
  bound = h;
  within = IsWithin-nothing p (p + size) buf;
}

-- A run behind a step that changed characters of the same range.
IsPut-behind :
    {p size lo hi : ℕ} {buf middle : List ℕ} {run : Option (ℕ × List ℕ)}
    → IsWithin lo hi buf middle
    → p ≤ lo
    → hi ≤ p + size
    → IsPut p size middle run
    → IsPut p size buf run
IsPut-behind {p} {size} w a b r = record {
  count = r.count;
  after = r.after;
  done = r.done;
  bound = r.bound;
  within = IsWithin-then p (p + size) w r.within a (omega arith) b (omega arith);
}

module _ (p size : ℕ) where
  put_digits-IsPut :
      (base room value n : ℕ) (buf : List ℕ)
      → n + room ≤ size
      → p + size ≤ length buf
      → IsPut p size buf (put_digits base p room value n buf)
  unfolding put_digits
  put_digits-IsPut base zero value n buf h fits = IsPut-nothing p size n buf (omega arith)
  put_digits-IsPut base (suc room) value n buf h fits =
      let put = prepend-IsRun (digit_char (value % base)) p n buf (omega arith) in
      elim (Bool-cases (value == 0)) [
        | inl e ↦ rw e (IsPut-nothing p size n buf (omega arith))
        | inr e ↦
            rw (e, put.done)
              (IsPut-behind put.within (omega arith) (omega arith) (
                put_digits-IsPut base room (through_int (value / base)) (suc n) put.after
                  (omega arith) (omega (arith, put.within.length_same))))
      ]

  put_pad-IsPut :
      (pad_char pad n : ℕ) (buf : List ℕ)
      → n ≤ size
      → p + size ≤ length buf
      → IsPut p size buf (put_pad pad_char p size pad n buf)
  unfolding put_pad
  put_pad-IsPut pad_char zero n buf h fits = IsPut-nothing p size n buf h
  put_pad-IsPut pad_char (suc pad) n buf h fits = elim (dec_lt n size) [
    | yes more ↦
        let put = prepend-IsRun pad_char p n buf (omega arith) in
        rw (lt→ltb n size more, put.done)
          (IsPut-behind put.within (omega arith) (omega arith) (
            put_pad-IsPut pad_char pad (suc n) put.after (omega arith)
              (omega (arith, put.within.length_same))))
    | no full ↦ rw (le→ltb n size (omega arith)) (IsPut-nothing p size n buf h)
  ]

  put_zero-IsPut :
      (n : ℕ) (buf : List ℕ)
      → n ≤ size
      → p + size ≤ length buf
      → IsPut p size buf (put_zero p size n buf)
  unfolding put_zero
  put_zero-IsPut n buf h fits = elim (dec_lt n size) [
    | yes more ↦
        let put = prepend-IsRun 48 p n buf (omega arith) in
        let again = write-IsRun p 48 put.after (omega (arith, put.within.length_same)) in
        rw (lt→ltb n size more, put.done, again.done)
          (IsPut-behind put.within (omega arith) (omega arith) (
            IsPut-behind again.within (omega arith) (omega arith)
              (IsPut-nothing p size (suc n) again.after more)))
    | no full ↦ rw (le→ltb n size (omega arith)) (IsPut-nothing p size n buf h)
  ]

  put_value-IsPut :
      (arm : Bool) (value base pad pad_char n : ℕ) (buf : List ℕ)
      → n ≤ size
      → p + size ≤ length buf
      → IsPut p size buf (put_value arm p size value base pad pad_char n buf)
  unfolding put_value
  put_value-IsPut arm value base pad pad_char n buf h fits = elim (Bool-cases (value == 0)) [
    | inl e ↦ let digits = put_zero-IsPut n buf h fits in rw (e, digits.done) (padded digits)
    | inr e ↦ elim (Bool-cases (arm && (not (base == 16) && ltb n size))) [
      | inl e' ↦ rw (e, e') (IsPut-nothing p size 0 buf (omega arith))
      | inr e' ↦
          let digits = put_digits-IsPut base (size - n) value n buf (omega arith) fits in
          rw (e, e', digits.done) (padded digits)
    ]
  ]
    where
      padded :
          {run : Option (ℕ × List ℕ)} (d : IsPut p size buf run)
          → IsPut p size buf (put_pad pad_char p size (pad - d.count) d.count d.after)
      padded d = IsPut-behind d.within (omega arith) (omega arith) (
          put_pad-IsPut pad_char (pad - d.count) d.count d.after d.bound
            (omega (arith, d.within.length_same)))

  put_text-IsPut :
      (room n : ℕ) (text buf : List ℕ)
      → n + room ≤ size
      → p + size ≤ length buf
      → IsPut p size buf (put_text p room n text buf)
  unfolding put_text
  put_text-IsPut room n [] buf h fits = IsPut-nothing p size n buf (omega arith)
  put_text-IsPut zero n (c ∷ text) buf h fits = IsPut-nothing p size n buf (omega arith)
  put_text-IsPut (suc room) n (c ∷ text) buf h fits =
      let put = write-IsRun (p + n) c buf (omega arith) in
      rw put.done (
        IsPut-behind put.within (omega arith) (omega arith) (
          put_text-IsPut room (suc n) text put.after (omega arith)
            (omega (arith, put.within.length_same))))

  put_fill-IsPut :
      (pad_char rounds n : ℕ) (buf : List ℕ)
      → n + rounds ≤ size
      → p + size ≤ length buf
      → IsPut p size buf (put_fill pad_char p rounds n buf)
  unfolding put_fill
  put_fill-IsPut pad_char zero n buf h fits = IsPut-nothing p size n buf (omega arith)
  put_fill-IsPut pad_char (suc rounds) n buf h fits =
      let put = write-IsRun (p + n) pad_char buf (omega arith) in
      rw put.done (
        IsPut-behind put.within (omega arith) (omega arith) (
          put_fill-IsPut pad_char rounds (suc n) put.after (omega arith)
            (omega (arith, put.within.length_same))))

-- With room for at least the sign, `append_num` returns at most `size` characters and changes no
-- character outside its room, whatever the value and the padding.
pub append_num-IsPut :
    (arm sgn : Bool) (p size value base pad pad_char : ℕ) (buf : List ℕ)
    → (1 ≤ size) ⊎ (sgn ≡ false)
    → p + size ≤ length buf
    → IsPut p size buf (append_num arm p size value base sgn pad pad_char buf)
unfolding append_num
append_num-IsPut arm sgn p size value base pad pad_char buf room fits =
    let signed = prepend-IsRun 45 p 0 buf in
    elim (Bool-cases (sgn && leb (2 ^ 63) value)) [
      | inl e ↦
          let some_room : 1 ≤ size = ground arith in
          let put = signed (omega arith) in
          rw (e, put.done)
            (IsPut-behind put.within (omega arith) (omega arith) (
              put_value-IsPut p size arm (2 ^ 64 - value) base
                (if leb size pad then size - 1 else pad) pad_char 1 put.after some_room
                (omega (arith, put.within.length_same))))
      | inr e ↦ rw e (
          put_value-IsPut p size arm value base (if leb size pad then size - 1 else pad) pad_char 0
            buf (omega arith) fits)
    ]

-- `append_str` returns at most `size` characters and changes no character outside its room.
pub append_str-IsPut :
    (p size pad pad_char : ℕ) (text buf : List ℕ)
    → p + size ≤ length buf
    → IsPut p size buf (append_str p size text pad pad_char buf)
unfolding append_str
append_str-IsPut p size pad pad_char text buf fits =
    let put = put_text-IsPut p size size 0 text buf (omega arith) fits in
    rw put.done (
      IsPut-behind put.within (omega arith) (omega arith) (
        put_fill-IsPut p size pad_char (min size pad - put.count) put.count put.after
          (omega (arith, put.bound)) (omega (arith, put.within.length_same))))
