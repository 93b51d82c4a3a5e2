-- ===== src/Util/Bytes.antt =====
-- util/memcpy.c and util/memset.c over a memory of bytes.
use simbench.Base.{ℕ, zero, suc, ◌==◌, if◌then◌else◌, bit_and}

abbrev pub put : (ℕ → ℕ) → ℕ → ℕ → ℕ → ℕ
put memory d b a = if a == d then b else memory a

-- The loop of `memcpy`, from the addresses `d` and `s` on.
unfoldable pub copy_bytes : ℕ → ℕ → ℕ → (ℕ → ℕ) → ℕ → ℕ
copy_bytes d s zero memory = memory
copy_bytes d s (suc n) memory = copy_bytes (suc d) (suc s) n (put memory d (memory s))

-- The returned pointer and the memory.
unfoldable pub memcpy : ℕ → ℕ → ℕ → (ℕ → ℕ) → ℕ × (ℕ → ℕ)
unfolding copy_bytes
memcpy dest src n memory = (dest, copy_bytes dest src n memory)

-- `temp` is the address of the local array. The function ends without a return.
unfoldable pub memmove : ℕ → ℕ → ℕ → ℕ → (ℕ → ℕ) → ℕ → ℕ
unfolding memcpy
memmove temp dest src n memory =
    let first = memcpy temp src n memory in let second = memcpy dest temp n (first.1) in second.1

-- The loop of `memset`.
unfoldable pub set_bytes : ℕ → ℕ → ℕ → (ℕ → ℕ) → ℕ → ℕ
set_bytes s b zero memory = memory
set_bytes s b (suc n) memory = set_bytes (suc s) b n (put memory s b)

-- `c` is the bit pattern of the int.
unfoldable pub memset : ℕ → ℕ → ℕ → (ℕ → ℕ) → ℕ × (ℕ → ℕ)
unfolding set_bytes
memset s c n memory = (s, set_bytes s (bit_and c 0xff) n memory)

unfoldable pub bzero : ℕ → ℕ → (ℕ → ℕ) → ℕ → ℕ
unfolding memset
bzero s n memory = (memset s 0 n memory).1
