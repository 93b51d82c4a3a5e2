-- ===== src/Util/Copy.antt =====
-- What `memcpy`, `memmove` and `memset` leave in the memory, with overlap.
use simbench.Base.{
  ℕ, zero, suc, ◌+◌, ◌%◌, ◌^◌, ◌≤◌, ◌<◌, ◌≡◌, ◌≢◌, ◌⊎◌, inl, inr, refl, sym, ap, ◌∙◌, arith, ne→==,
  eq→==, bit_and, bit_and_mask,
}
use simbench.Util.Bytes.{put, copy_bytes, memcpy, memmove, set_bytes, memset}

-- `a` is none of the `n` addresses from `s` on.
abbrev pub IsOutside : ℕ → ℕ → ℕ → Type 0
IsOutside s n a = (a < s) ⊎ (s + n ≤ a)

IsOutside-suc : (s n a : ℕ) → IsOutside s (suc n) a → IsOutside (suc s) n a
IsOutside-suc s n a (inl h) = inl (omega arith)
IsOutside-suc s n a (inr h) = inr (omega arith)

IsOutside-ne : (s n a : ℕ) → IsOutside s (suc n) a → a ≢ s
IsOutside-ne s n a (inl h) e = omega arith
IsOutside-ne s n a (inr h) e = omega arith

pub copy_bytes-outside :
    (d s n : ℕ) (memory : ℕ → ℕ) (a : ℕ) → IsOutside d n a → copy_bytes d s n memory a ≡ memory a
unfolding copy_bytes
copy_bytes-outside d s zero memory a h = refl
copy_bytes-outside d s (suc n) memory a h =
    copy_bytes-outside (suc d) (suc s) n (put memory d (memory s)) a (IsOutside-suc d n a h)
    ∙ rw (ne→== a d (IsOutside-ne d n a h)) refl

copy_bytes-first : (d s n : ℕ) (memory : ℕ → ℕ) → copy_bytes d s (suc n) memory (d + 0) ≡ memory s
unfolding copy_bytes
copy_bytes-first d s n memory =
    copy_bytes-outside (suc d) (suc s) n (put memory d (memory s)) (d + 0) (inl (omega arith))
    ∙ rw (eq→== (d + 0) d (omega arith)) refl

pub copy_bytes-down :
    (d s n : ℕ) (memory : ℕ → ℕ) (i : ℕ)
    → d ≤ s
    → i < n
    → copy_bytes d s n memory (d + i) ≡ memory (s + i)
unfolding copy_bytes
copy_bytes-down d s zero memory i low h = absurd (omega arith)
copy_bytes-down d s (suc n) memory zero low h =
    copy_bytes-first d s n memory ∙ ap memory (omega arith)
copy_bytes-down d s (suc n) memory (suc i) low h =
    ap (copy_bytes (suc d) (suc s) n (put memory d (memory s))) (omega arith)
    ∙ copy_bytes-down (suc d) (suc s) n (put memory d (memory s)) i (omega arith) (omega arith)
    ∙ rw (ne→== (suc s + i) d (λ e. omega arith)) (ap memory (omega arith))

copy_bytes-up :
    (d s n : ℕ) (memory : ℕ → ℕ) (i : ℕ)
    → s < d
    → i < n
    → copy_bytes d s n memory (d + i) ≡ copy_bytes d s n memory (s + i)
unfolding copy_bytes
copy_bytes-up d s zero memory i high h = absurd (omega arith)
copy_bytes-up d s (suc n) memory zero high h =
    copy_bytes-first d s n memory
    ∙ sym (
        copy_bytes-outside d s (suc n) memory (s + 0) (inl (omega arith)) ∙ ap memory (omega arith))
copy_bytes-up d s (suc n) memory (suc i) high h =
    let rest = copy_bytes (suc d) (suc s) n (put memory d (memory s)) in
    ap rest (omega arith)
    ∙ copy_bytes-up (suc d) (suc s) n (put memory d (memory s)) i (omega arith) (omega arith)
    ∙ ap rest (omega arith)

-- What `memcpy` did, for each position of the two ranges.
pub record IsCopied (dest src n : ℕ) (memory : ℕ → ℕ) : Type 0 where
  pub returned : (memcpy dest src n memory).0 ≡ dest
  pub outside : (a : ℕ) → IsOutside dest n a → (memcpy dest src n memory).1 a ≡ memory a
  pub down :
      (i : ℕ) → dest ≤ src → i < n → (memcpy dest src n memory).1 (dest + i) ≡ memory (src + i)
  pub up :
      (i : ℕ)
      → src < dest
      → i < n
      → (memcpy dest src n memory).1 (dest + i) ≡ (memcpy dest src n memory).1 (src + i)

-- `memcpy` returns the destination and changes nothing outside it. Where the destination is not
-- above the source it holds the bytes of the source, with any overlap. Where it is above, each of
-- its bytes is what the source range holds at the same place afterwards, so that an overlap repeats
-- the first bytes.
pub memcpy-IsCopied : (dest src n : ℕ) (memory : ℕ → ℕ) → IsCopied dest src n memory
unfolding memcpy
memcpy-IsCopied dest src n memory = record {
  returned = refl;
  outside = copy_bytes-outside dest src n memory;
  down = copy_bytes-down dest src n memory;
  up = copy_bytes-up dest src n memory;
}

copy_bytes-apart :
    (d s n : ℕ) (memory : ℕ → ℕ) (i : ℕ)
    → (d + n ≤ s) ⊎ (s + n ≤ d)
    → i < n
    → copy_bytes d s n memory (d + i) ≡ memory (s + i)
copy_bytes-apart d s n memory i (inl below) h = copy_bytes-down d s n memory i (omega arith) h
copy_bytes-apart d s n memory i (inr above) h =
    copy_bytes-up d s n memory i (omega arith) h
    ∙ copy_bytes-outside d s n memory (s + i) (inl (omega arith))

pub record IsMoved (temp dest src n : ℕ) (memory : ℕ → ℕ) : Type 0 where
  pub moved : (i : ℕ) → i < n → memmove temp dest src n memory (dest + i) ≡ memory (src + i)
  pub outside :
      (a : ℕ)
      → IsOutside dest n a
      → IsOutside temp n a
      → memmove temp dest src n memory a ≡ memory a

-- With its local array apart from the source and from the destination, `memmove` leaves the bytes of
-- the source in the destination, however the two overlap, and changes nothing else but the array.
pub memmove-IsMoved :
    (temp dest src n : ℕ) (memory : ℕ → ℕ)
    → (temp + n ≤ src) ⊎ (src + n ≤ temp)
    → (dest + n ≤ temp) ⊎ (temp + n ≤ dest)
    → IsMoved temp dest src n memory
unfolding memmove memcpy
memmove-IsMoved temp dest src n memory from_source from_dest = record {
  moved = λ i h.
      copy_bytes-apart dest temp n (copy_bytes temp src n memory) i from_dest h
      ∙ copy_bytes-apart temp src n memory i from_source h;
  outside = λ a out_dest out_temp.
      copy_bytes-outside dest temp n (copy_bytes temp src n memory) a out_dest
      ∙ copy_bytes-outside temp src n memory a out_temp;
}

pub set_bytes-outside :
    (s b n : ℕ) (memory : ℕ → ℕ) (a : ℕ) → IsOutside s n a → set_bytes s b n memory a ≡ memory a
unfolding set_bytes
set_bytes-outside s b zero memory a h = refl
set_bytes-outside s b (suc n) memory a h =
    set_bytes-outside (suc s) b n (put memory s b) a (IsOutside-suc s n a h)
    ∙ rw (ne→== a s (IsOutside-ne s n a h)) refl

pub set_bytes-inside :
    (s b n : ℕ) (memory : ℕ → ℕ) (i : ℕ) → i < n → set_bytes s b n memory (s + i) ≡ b
unfolding set_bytes
set_bytes-inside s b zero memory i h = absurd (omega arith)
set_bytes-inside s b (suc n) memory zero h =
    set_bytes-outside (suc s) b n (put memory s b) (s + 0) (inl (omega arith))
    ∙ rw (eq→== (s + 0) s (omega arith)) refl
set_bytes-inside s b (suc n) memory (suc i) h =
    ap (set_bytes (suc s) b n (put memory s b)) (omega arith)
    ∙ set_bytes-inside (suc s) b n (put memory s b) i (omega arith)

pub record IsFilled (s c n : ℕ) (memory : ℕ → ℕ) : Type 0 where
  pub returned : (memset s c n memory).0 ≡ s
  pub filled : (i : ℕ) → i < n → (memset s c n memory).1 (s + i) ≡ c % 2 ^ 8
  pub outside : (a : ℕ) → IsOutside s n a → (memset s c n memory).1 a ≡ memory a

-- `memset` returns its pointer, leaves the low 8 bits of its value in each byte of the range and
-- changes no other byte.
pub memset-IsFilled : (s c n : ℕ) (memory : ℕ → ℕ) → IsFilled s c n memory
unfolding memset
memset-IsFilled s c n memory = record {
  returned = refl;
  filled = λ i h. set_bytes-inside s (bit_and c 0xff) n memory i h ∙ bit_and_mask 8 c;
  outside = set_bytes-outside s (bit_and c 0xff) n memory;
}
