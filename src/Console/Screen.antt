-- ===== src/Console/Screen.antt =====
-- The code of platform/x86_64/native/console.c.
use simbench.Base.{
  ℕ, zero, suc, ◌+◌, ◌*◌, ◌%◌, ◌^◌, ◌==◌, ltb, leb, if◌then◌else◌, List, ◌∷◌, Option, none, some,
  bit_or,
}
use simbench.Util.Bytes.{put}

-- `vga` gives the cell at each index; the cursor is the static variables. `registers` has the writes
-- of `write_reg`, the last one first.
pub record Console : Type 0 where
  pub vga : ℕ → ℕ
  pub cur_x : ℕ
  pub cur_y : ℕ
  pub registers : List (ℕ × ℕ)

abbrev pub and_then : {A B : Type 0} → Option A → (A → Option B) → Option B
and_then none k = none
and_then (some a) k = k a

infixl 5 ◌>>=◌
abbrev pub ◌>>=◌ : {A B : Type 0} → Option A → (A → Option B) → Option B
o >>= k = and_then o k

-- The index of the cell, `none` for NULL: reading or writing through it gives no result.
unfoldable pub slot_from_xy : ℕ → ℕ → Option ℕ
slot_from_xy x y = if leb 80 x then none else (if leb 25 y then none else some (x + y * 80))

unfoldable pub write_reg : ℕ → ℕ → Console → Console
write_reg reg val c = record c { registers = (reg, val) ∷ c.registers }

-- The loop of `console_clear`.
unfoldable pub clear_cells : ℕ → ℕ → (ℕ → ℕ) → ℕ → ℕ
clear_cells zero i vga = vga
clear_cells (suc n) i vga = clear_cells n (suc i) (put vga i 0)

unfoldable pub console_clear : Console → Console
unfolding clear_cells
console_clear c = record c { vga = clear_cells 2000 0 c.vga; cur_x = 0; cur_y = 0 }

unfoldable pub console_init : Console → Console
unfolding write_reg console_clear
console_init c = console_clear (write_reg 0x0a 0x20 c)

-- The inner loop of `new_line` from column `x` on, its outer loop from row `y` on, and the last loop.
unfoldable pub copy_cells : ℕ → ℕ → ℕ → (ℕ → ℕ) → Option (ℕ → ℕ)
unfolding slot_from_xy
copy_cells zero x y vga = some vga
copy_cells (suc n) x y vga = do
  to ← slot_from_xy x y
  from ← slot_from_xy x (y + 1)
  copy_cells n (suc x) y (put vga to (vga from))

unfoldable pub copy_rows : ℕ → ℕ → (ℕ → ℕ) → Option (ℕ → ℕ)
unfolding copy_cells
copy_rows zero y vga = some vga
copy_rows (suc n) y vga = do copied ← copy_cells 80 0 y vga; copy_rows n (suc y) copied

unfoldable pub blank_cells : ℕ → ℕ → (ℕ → ℕ) → Option (ℕ → ℕ)
unfolding slot_from_xy
blank_cells zero x vga = some vga
blank_cells (suc n) x vga = do to ← slot_from_xy x 24; blank_cells n (suc x) (put vga to 0)

unfoldable pub scroll : (ℕ → ℕ) → Option (ℕ → ℕ)
unfolding copy_rows blank_cells
scroll vga = do copied ← copy_rows 24 0 vga; blank_cells 80 0 copied

unfoldable pub new_line : Console → Option Console
unfolding scroll
new_line c =
    let next = (c.cur_y + 1) % 2 ^ 32 in
    if leb 25 next
    then (do vga ← scroll c.vga; some (record c { vga = vga; cur_x = 0; cur_y = 24 }))
    else some (record c { cur_x = 0; cur_y = next })

-- `0x0700 | ch` in 16 bits; `ch` is the bit pattern of a char, which is signed.
abbrev pub cell_of : ℕ → ℕ
cell_of ch = bit_or 0x0700 (if ltb ch 0x80 then ch else 0xff00 + ch)

-- The end of `console_putc`, with the character written.
unfoldable pub advance : Console → Option Console
unfolding new_line
advance c =
    let next = (c.cur_x + 1) % 2 ^ 32 in
    if leb 80 next then new_line (record c { cur_x = next }) else some (record c { cur_x = next })

unfoldable pub console_putc : ℕ → Console → Option Console
unfolding new_line advance slot_from_xy
console_putc ch c =
    if ch == 10 then new_line c else if ch == 13 then some (record c { cur_x = 0 }) else (do
      slot ← slot_from_xy c.cur_x c.cur_y
      advance (record c { vga = put c.vga slot (cell_of ch) }))
