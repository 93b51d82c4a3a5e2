-- ===== src/Printf/Buffer.antt =====
-- The output buffer of util/printf.c and the functions that put a number or a text into it.
use simbench.Base.{
  ℕ, zero, suc, ◌+◌, ◌-◌, ◌/◌, ◌%◌, ◌^◌, ◌==◌, ltb, leb, Bool, not, ◌&&◌, if◌then◌else◌, min, List,
  [], ◌∷◌, Option, none, some, length, set, get_elem?,
}

-- `none` is an access outside the buffer.
abbrev pub write : ℕ → ℕ → List ℕ → Option (List ℕ)
write i c buf = if ltb i (length buf) then some (set buf i c) else none

abbrev pub and_then {ℓ ℓ'} : {A : Type ℓ} {B : Type ℓ'} → Option A → (A → Option B) → Option B
and_then none k = none
and_then (some a) k = k a

infixl 5 ◌>>=◌
abbrev pub ◌>>=◌ {ℓ ℓ'} : {A : Type ℓ} {B : Type ℓ'} → Option A → (A → Option B) → Option B
m >>= k = and_then m k

-- The loop of `prepend_to_buffer`: `i` counts down to 1. `buffer` is the index `p`.
unfoldable pub shift : ℕ → ℕ → List ℕ → Option (List ℕ)
shift p zero buf = some buf
shift p (suc i) buf = do c ← get_elem? buf (p + i); moved ← write (p + suc i) c buf; shift p i moved

unfoldable pub prepend_to_buffer : ℕ → ℕ → ℕ → List ℕ → Option (List ℕ)
prepend_to_buffer c p size buf = do shifted ← shift p size buf; write p c shifted

-- A 64-bit value that goes through an `int`: cut to 32 bits, then sign-extended.
abbrev pub through_int : ℕ → ℕ
through_int v = if ltb (v % 2 ^ 32) (2 ^ 31) then v % 2 ^ 32 else v % 2 ^ 32 + 2 ^ 64 - 2 ^ 32

-- A base is at most 16, so that one of the two ranges has the digit.
abbrev pub digit_char : ℕ → ℕ
digit_char digit_value = if leb digit_value 9 then 48 + digit_value else 97 + digit_value - 10

-- The loop over the digits; `room` is `size - n`.
unfoldable pub put_digits : ℕ → ℕ → ℕ → ℕ → ℕ → List ℕ → Option (ℕ × List ℕ)
put_digits base p zero value n buf = some (n, buf)
put_digits base p (suc room) value n buf =
    let rest = put_digits base p room (through_int (value / base)) (suc n) in
    if value == 0
    then some (n, buf)
    else (do more ← prepend_to_buffer (digit_char (value % base)) p n buf; rest more)

-- The loop over the padding, on the rounds that `pad` has.
unfoldable pub put_pad : ℕ → ℕ → ℕ → ℕ → ℕ → List ℕ → Option (ℕ × List ℕ)
put_pad pad_char p size zero n buf = some (n, buf)
put_pad pad_char p size (suc pad) n buf =
    let rest = put_pad pad_char p size pad (suc n) in
    if ltb n size then (do more ← prepend_to_buffer pad_char p n buf; rest more) else some (n, buf)

-- A zero, where there is room for it.
unfoldable pub put_zero : ℕ → ℕ → ℕ → List ℕ → Option (ℕ × List ℕ)
put_zero p size n buf =
    if ltb n size
    then (do more ← prepend_to_buffer 48 p n buf; zeroed ← write p 48 more; some (suc n, zeroed))
    else some (n, buf)

-- The conversion behind the sign. On ARM (`arm`) the loop returns 0 in another base than 16.
unfoldable pub put_value : Bool → ℕ → ℕ → ℕ → ℕ → ℕ → ℕ → ℕ → List ℕ → Option (ℕ × List ℕ)
put_value arm p size value base pad pad_char n buf =
    if value == 0
    then (do
      digits ← put_zero p size n buf
      put_pad pad_char p size (pad - digits.0) digits.0 digits.1)
    else (if arm && (not (base == 16) && ltb n size) then some (0, buf) else (do
      digits ← put_digits base p (size - n) value n buf
      put_pad pad_char p size (pad - digits.0) digits.0 digits.1))

-- `value` is an unsigned 64-bit number; the sign is prepended before the digits are.
unfoldable pub append_num : Bool → ℕ → ℕ → ℕ → ℕ → Bool → ℕ → ℕ → List ℕ → Option (ℕ × List ℕ)
append_num arm p size value base sgn pad pad_char buf =
    let cut = if leb size pad then size - 1 else pad in
    if sgn && leb (2 ^ 63) value
    then (do
      signed ← prepend_to_buffer 45 p 0 buf
      put_value arm p size (2 ^ 64 - value) base cut pad_char 1 signed)
    else put_value arm p size value base cut pad_char 0 buf

-- The loop over the text; `room` is `size - n`.
unfoldable pub put_text : ℕ → ℕ → ℕ → List ℕ → List ℕ → Option (ℕ × List ℕ)
put_text p room n [] buf = some (n, buf)
put_text p zero n (c ∷ text) buf = some (n, buf)
put_text p (suc room) n (c ∷ text) buf = do
  more ← write (p + n) c buf
  put_text p room (suc n) text more

-- The loop that pads behind the text, for `rounds` rounds.
unfoldable pub put_fill : ℕ → ℕ → ℕ → ℕ → List ℕ → Option (ℕ × List ℕ)
put_fill pad_char p zero n buf = some (n, buf)
put_fill pad_char p (suc rounds) n buf = do
  more ← write (p + n) pad_char buf
  put_fill pad_char p rounds (suc n) more

unfoldable pub append_str : ℕ → ℕ → List ℕ → ℕ → ℕ → List ℕ → Option (ℕ × List ℕ)
append_str p size text pad pad_char buf = do
  put ← put_text p size 0 text buf
  put_fill pad_char p (min size pad - put.0) put.0 put.1
