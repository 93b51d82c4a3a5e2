-- ===== src/Decode/Cursor.antt =====
-- The code pointer of arch/x86_64/decode.c: the bytes from `*code` on, and reads through it.
use simbench.Base.{ℕ, ◌+◌, ◌*◌, ◌^◌, List, [], ◌∷◌}

-- `refused` is a `return 0`: the callers then drop the half-written instruction, so it is not kept.
-- `fault` is a read past the bytes that were given.
pub data Result (A : Type 0) : Type 0 where
  ok : A → List ℕ → Result A
  refused : Result A
  fault : Result A

abbrev pub Cursor : Type 0 → Type 0
Cursor A = List ℕ → Result A

abbrev pub pure : {A : Type 0} → A → Cursor A
pure = ok

abbrev pub refuse : {A : Type 0} → Cursor A
refuse code = refused

module _ {A B : Type 0} where
  abbrev pub and_then : Result A → (A → Cursor B) → Result B
  and_then (ok a rest) k = k a rest
  and_then refused k = refused
  and_then fault k = fault

  infixl 5 ◌>>=◌
  abbrev pub ◌>>=◌ : Cursor A → (A → Cursor B) → Cursor B
  m >>= k = λ code. and_then (m code) k

-- `*code`, then `code++`.
abbrev pub next : Cursor ℕ
next [] = fault
next (b ∷ rest) = ok b rest

-- `*code` alone.
abbrev pub peek : Cursor ℕ
peek [] = fault
peek (b ∷ rest) = ok b (b ∷ rest)

-- Unaligned little-endian loads of four and of eight bytes, then `code += 4` and `code += 8`.
unfoldable pub next32 : Cursor ℕ
next32 = do
  b0 ← next
  b1 ← next
  b2 ← next
  b3 ← next
  pure (b0 + b1 * 2 ^ 8 + b2 * 2 ^ 16 + b3 * 2 ^ 24)

unfoldable pub next64 : Cursor ℕ
unfolding next32
next64 = do low ← next32; high ← next32; pure (low + high * 2 ^ 32)
