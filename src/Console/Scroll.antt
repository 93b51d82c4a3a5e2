-- ===== src/Console/Scroll.antt =====
-- The loops of `new_line` are a copy of 24 rows and the filling of one.
use simbench.Base.{
  ℕ, zero, suc, ◌+◌, ◌*◌, ◌≤◌, ◌<◌, ◌≡◌, refl, sym, ap, ◌∙◌, arith, inl, inr, Option, some,
}
use simbench.Util.Bytes.{put, copy_bytes, set_bytes}
use simbench.Util.Copy.{copy_bytes-down, copy_bytes-outside, set_bytes-inside, set_bytes-outside}
use simbench.Console.Screen.{◌>>=◌, slot_from_xy, copy_cells, copy_rows, blank_cells, scroll}

pub slot_from_xy-inside : (x y : ℕ) → x < 80 → y < 25 → slot_from_xy x y ≡ some (x + y * 80)
unfolding slot_from_xy
slot_from_xy-inside x y x_bound y_bound = ground arith

plus_zero : (a : ℕ) → a + 0 ≡ a
plus_zero a = omega arith

zero_plus : (a : ℕ) → 0 + a ≡ a
zero_plus a = omega arith

plus_suc : (a b : ℕ) → a + suc b ≡ suc a + b
plus_suc a b = omega arith

suc_plus : (a b : ℕ) → suc a + b ≡ suc (a + b)
suc_plus a b = omega arith

pub bind_some :
    {A B : Type 0} (o : Option A) (a : A) (k : A → Option B) → o ≡ some a → (o >>= k) ≡ k a
bind_some o a k e = ap (λ x. x >>= k) e

copy_bytes-append :
    (d s m n : ℕ) (memory : ℕ → ℕ)
    → copy_bytes (d + m) (s + m) n (copy_bytes d s m memory) ≡ copy_bytes d s (m + n) memory
unfolding copy_bytes
copy_bytes-append d s zero n memory = rw (plus_zero d, plus_zero s, zero_plus n) refl
copy_bytes-append d s (suc m) n memory =
    rw (plus_suc d m, plus_suc s m, suc_plus m n)
      (copy_bytes-append (suc d) (suc s) m n (put memory d (memory s)))

copy_cells-copy_bytes :
    (n x y : ℕ) (vga : ℕ → ℕ)
    → x + n ≤ 80
    → y < 24
    → copy_cells n x y vga ≡ some (copy_bytes (x + y * 80) (x + (y + 1) * 80) n vga)
unfolding copy_cells copy_bytes
copy_cells-copy_bytes zero x y vga x_bound y_bound = refl
copy_cells-copy_bytes (suc n) x y vga x_bound y_bound =
    rw
      (
        slot_from_xy-inside x y (omega arith) (omega arith),
        slot_from_xy-inside x (y + 1) (omega arith) (omega arith),
      )
      (copy_cells-copy_bytes n (suc x) y (put vga (x + y * 80) (vga (x + (y + 1) * 80)))
          (omega arith) y_bound
        ∙ rw (suc_plus x (y * 80), suc_plus x ((y + 1) * 80)) refl)

copy_bytes-none : (d s : ℕ) (memory : ℕ → ℕ) → copy_bytes d s 0 memory ≡ memory
unfolding copy_bytes
copy_bytes-none d s memory = refl

copy_rows-copy_bytes :
    (n y : ℕ) (vga : ℕ → ℕ)
    → y + n ≤ 24
    → copy_rows n y vga ≡ some (copy_bytes (y * 80) (y * 80 + 80) (n * 80) vga)
unfolding copy_rows
copy_rows-copy_bytes zero y vga bound = ap some (sym (copy_bytes-none (y * 80) (y * 80 + 80) vga))
copy_rows-copy_bytes (suc n) y vga bound =
    let to : 0 + y * 80 ≡ y * 80 = omega arith in
    let from : 0 + (y + 1) * 80 ≡ y * 80 + 80 = omega arith in
    let below : suc y * 80 ≡ y * 80 + 80 = omega arith in
    let count : suc n * 80 ≡ 80 + n * 80 = omega arith in
    let row = copy_bytes (0 + y * 80) (0 + (y + 1) * 80) 80 vga in
    bind_some (copy_cells 80 0 y vga) row (copy_rows n (suc y))
      (copy_cells-copy_bytes 80 0 y vga (omega arith) (omega arith))
    ∙ copy_rows-copy_bytes n (suc y) row (omega arith)
    ∙ ap some
        (rw (to, from, below, count) (copy_bytes-append (y * 80) (y * 80 + 80) 80 (n * 80) vga))

blank_cells-set_bytes :
    (n x : ℕ) (vga : ℕ → ℕ) → x + n ≤ 80 → blank_cells n x vga ≡ some (set_bytes (x + 1920) 0 n vga)
unfolding blank_cells set_bytes
blank_cells-set_bytes zero x vga bound = refl
blank_cells-set_bytes (suc n) x vga bound =
    rw (slot_from_xy-inside x 24 (omega arith) (omega arith)) (
      blank_cells-set_bytes n (suc x) (put vga (x + 1920) 0) (omega arith)
      ∙ rw (suc_plus x 1920) refl)

-- Scrolling never leaves the screen, and is the copy and the filling.
pub scroll-set_bytes :
    (vga : ℕ → ℕ) → scroll vga ≡ some (set_bytes 1920 0 80 (copy_bytes 0 80 1920 vga))
unfolding scroll
scroll-set_bytes vga =
    bind_some (copy_rows 24 0 vga) (copy_bytes 0 80 1920 vga) (blank_cells 80 0)
      (copy_rows-copy_bytes 24 0 vga (omega arith))
    ∙ blank_cells-set_bytes 80 0 (copy_bytes 0 80 1920 vga) (omega arith)

-- The cells after the scrolling.
pub scrolled-above :
    (vga : ℕ → ℕ) (x y : ℕ)
    → x < 80
    → y < 24
    → set_bytes 1920 0 80 (copy_bytes 0 80 1920 vga) (x + y * 80) ≡ vga (x + (y + 1) * 80)
scrolled-above vga x y x_bound y_bound =
    set_bytes-outside 1920 0 80 (copy_bytes 0 80 1920 vga) (x + y * 80) (inl (omega arith))
    ∙ ap (copy_bytes 0 80 1920 vga) (sym (zero_plus (x + y * 80)))
    ∙ copy_bytes-down 0 80 1920 vga (x + y * 80) (omega arith) (omega arith)
    ∙ ap vga (omega arith)

pub scrolled-last :
    (vga : ℕ → ℕ) (x y : ℕ)
    → x < 80
    → y ≡ 24
    → set_bytes 1920 0 80 (copy_bytes 0 80 1920 vga) (x + y * 80) ≡ 0
scrolled-last vga x y x_bound e =
    ap (set_bytes 1920 0 80 (copy_bytes 0 80 1920 vga)) (omega arith)
    ∙ set_bytes-inside 1920 0 80 (copy_bytes 0 80 1920 vga) x x_bound

pub scrolled-outside :
    (vga : ℕ → ℕ) (a : ℕ) → 2000 ≤ a → set_bytes 1920 0 80 (copy_bytes 0 80 1920 vga) a ≡ vga a
scrolled-outside vga a h =
    set_bytes-outside 1920 0 80 (copy_bytes 0 80 1920 vga) a (inr (omega arith))
    ∙ copy_bytes-outside 0 80 1920 vga a (inr (omega arith))
