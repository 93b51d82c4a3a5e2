-- ===== src/Printf/Digits.antt =====
-- The digits that `append_num` of util/printf.c puts, read back as a number.
use simbench.Base.{
  ℕ, zero, suc, ◌+◌, ◌-◌, ◌*◌, ◌^◌, ◌<◌, leb, false, if◌then◌else◌, ◌≡◌, List, Option, some, length,
  get_elem?,
}
use simbench.Printf.Buffer.{shift, prepend_to_buffer, put_digits, append_num, ◌>>=◌}

record IsShifted (p i : ℕ) (buf : List ℕ) : Type 0 where
  after : List ℕ
  done : shift p i buf ≡ some after
  length_same : length after ≡ length buf
  above : (j : ℕ) → p + i < j → get_elem? after j ≡ get_elem? buf j
  moved : (j : ℕ) → j < i → get_elem? after (p + suc j) ≡ get_elem? buf (p + j)

-- The character in front, and the `n` characters behind it where they were before.
record IsPrepended (c p n : ℕ) (buf : List ℕ) : Type 0 where
  after : List ℕ
  done : prepend_to_buffer c p n buf ≡ some after
  length_same : length after ≡ length buf
  first : get_elem? after p ≡ some c
  moved : (j : ℕ) → j < n → get_elem? after (p + suc j) ≡ get_elem? buf (p + j)

-- The value of a digit's character.
abbrev pub digit_of : ℕ → ℕ
digit_of c = if leb c 57 then c - 48 else c - 87

-- The number that `n` digits from `p` on denote in a base, the most significant one first.
abbrev pub read_number : ℕ → ℕ → ℕ → List ℕ → Option ℕ
read_number base p zero buf = some 0
read_number base p (suc n) buf = do
  c ← get_elem? buf p
  low ← read_number base (suc p) n buf
  some (digit_of c * base ^ n + low)

-- The digits were put in front of `n` characters that denote `m`.
record IsNumber (base p room value n : ℕ) (buf : List ℕ) (m : ℕ) : Type 0 where
  count : ℕ
  after : List ℕ
  done : put_digits base p room value n buf ≡ some (count, after)
  reads : read_number base p count after ≡ some (value * base ^ n + m)

-- What `append_num` put denotes the value.
pub record IsNumeral (base p size value pad_char : ℕ) (buf : List ℕ) : Type 0 where
  pub count : ℕ
  pub after : List ℕ
  pub done : append_num false p size value base false 0 pad_char buf ≡ some (count, after)
  pub reads : read_number base p count after ≡ some value
