-- ===== src/Console/Shown.antt =====
-- What platform/x86_64/native/console.c shows for a text, by a screen of rows and columns.
use simbench.Base.{
  ℕ, zero, suc, ◌+◌, ◌*◌, ◌%◌, ◌^◌, ◌≤◌, ◌<◌, ◌==◌, ltb, leb, Bool, true, false, if◌then◌else◌,
  ◌&&◌, ◌≡◌, inl, inr, refl, ap, ◌∙◌, arith, List, [], ◌∷◌, Option, some, Bool-cases, eq→==, ne→==,
}
use simbench.Util.Bytes.{put, copy_bytes, set_bytes}
use simbench.Util.Copy.{set_bytes-inside, set_bytes-outside}
use simbench.Console.Screen.{
  Console, ◌>>=◌, slot_from_xy, clear_cells, console_clear, console_init, write_reg, scroll,
  new_line, cell_of, advance, console_putc,
}
use simbench.Console.Scroll.{
  slot_from_xy-inside, bind_some, scroll-set_bytes, scrolled-above, scrolled-last, scrolled-outside,
}

-- A screen of 25 rows of 80 cells with a cursor.
pub record Screen : Type 0 where
  pub cells : ℕ → ℕ → ℕ
  pub x : ℕ
  pub y : ℕ

abbrev pub blank : Screen
blank = record { cells = λ x y. 0; x = 0; y = 0 }

-- The next line, with all rows moved up where there is none.
abbrev pub next_line : Screen → Screen
next_line scr =
    if ltb scr.y 24
    then record scr { x = 0; y = scr.y + 1 }
    else record { cells = λ x y. if ltb y 24 then scr.cells x (y + 1) else 0; x = 0; y = 24 }

-- The next cell, which is in the next line after the last one.
abbrev pub next_cell : Screen → Screen
next_cell scr = if ltb scr.x 79 then record scr { x = scr.x + 1 } else next_line scr

abbrev pub write : ℕ → Screen → Screen
write cell scr = record scr {
  cells = λ x y. if x == scr.x && y == scr.y then cell else scr.cells x y;
}

abbrev pub show : ℕ → Screen → Screen
show ch scr =
    if ch == 10
    then next_line scr
    else if ch == 13
    then record scr { x = 0 }
    else next_cell (write (cell_of ch) scr)

-- The console shows the screen.
pub record Shows (c : Console) (scr : Screen) : Type 0 where
  pub cells : (x y : ℕ) → x < 80 → y < 25 → c.vga (x + y * 80) ≡ scr.cells x y
  pub x_same : c.cur_x ≡ scr.x
  pub y_same : c.cur_y ≡ scr.y
  pub x_bound : scr.x < 80
  pub y_bound : scr.y < 25

-- The code returned, shows the screen and left the memory behind the console's alone.
pub record IsShown (o : Option Console) (scr : Screen) (vga : ℕ → ℕ) : Type 0 where
  pub after : Console
  pub returned : o ≡ some after
  pub shows : Shows after scr
  pub behind : (a : ℕ) → 2000 ≤ a → after.vga a ≡ vga a

if_true : {A : Type 0} (b : Bool) (a a' : A) → b ≡ true → (if b then a else a') ≡ a
if_true b a a' e = rw e refl

if_false : {A : Type 0} (b : Bool) (a a' : A) → b ≡ false → (if b then a else a') ≡ a'
if_false b a a' e = rw e refl

scrolled-cell :
    (vga : ℕ → ℕ) (cells : ℕ → ℕ → ℕ) (i j : ℕ)
    → ((x y : ℕ) → x < 80 → y < 25 → vga (x + y * 80) ≡ cells x y)
    → i < 80
    → j < 25
    → set_bytes 1920 0 80 (copy_bytes 0 80 1920 vga) (i + j * 80)
      ≡ (if ltb j 24 then cells i (j + 1) else 0)
scrolled-cell vga cells i j same i_bound j_bound = elim (Bool-cases (ltb j 24)) [
  | inl above ↦
      rw above
        (scrolled-above vga i j i_bound (ground arith) ∙ same i (j + 1) i_bound (ground arith))
  | inr last ↦ rw last (scrolled-last vga i j i_bound (ground arith))
]

new_line-IsShown :
    (c : Console) (cells : ℕ → ℕ → ℕ) (x y : ℕ)
    → ((i j : ℕ) → i < 80 → j < 25 → c.vga (i + j * 80) ≡ cells i j)
    → c.cur_y ≡ y
    → y < 25
    → IsShown (new_line c) (next_line (record { cells = cells; x = x; y = y })) c.vga
unfolding new_line
new_line-IsShown c cells x y same e bound =
    let next = (c.cur_y + 1) % 2 ^ 32 in
    let show_last = λ (vga : ℕ → ℕ). some (record c { vga = vga; cur_x = 0; cur_y = 24 }) in
    elim (Bool-cases (ltb y 24)) [
      | inl above ↦
          let stays : leb 25 ((c.cur_y + 1) % 2 ^ 32) ≡ false = ground arith in
          record {
            after = record c { cur_x = 0; cur_y = y + 1 };
            returned =
                if_false (leb 25 next) (scroll c.vga >>= show_last)
                  (some (record c { cur_x = 0; cur_y = next })) stays
                ∙ ap (λ n. some (record c { cur_x = 0; cur_y = n })) (omega arith);
            shows = rw above (record {
              cells = same;
              x_same = refl;
              y_same = refl;
              x_bound = omega arith;
              y_bound = ground arith;
            });
            behind = λ a h. refl;
          }
      | inr last ↦
          let scrolls : leb 25 ((c.cur_y + 1) % 2 ^ 32) ≡ true = ground arith in
          record {
            after = record c {
              vga = set_bytes 1920 0 80 (copy_bytes 0 80 1920 c.vga);
              cur_x = 0;
              cur_y = 24;
            };
            returned =
                if_true (leb 25 next) (scroll c.vga >>= show_last)
                  (some (record c { cur_x = 0; cur_y = next })) scrolls
                ∙ bind_some (scroll c.vga) (set_bytes 1920 0 80 (copy_bytes 0 80 1920 c.vga))
                    show_last (scroll-set_bytes c.vga);
            shows = rw last (record {
              cells = λ i j i_bound j_bound. scrolled-cell c.vga cells i j same i_bound j_bound;
              x_same = refl;
              y_same = refl;
              x_bound = omega arith;
              y_bound = omega arith;
            });
            behind = scrolled-outside c.vga;
          }
    ]

advance-IsShown :
    (c : Console) (cells : ℕ → ℕ → ℕ) (x y : ℕ)
    → ((i j : ℕ) → i < 80 → j < 25 → c.vga (i + j * 80) ≡ cells i j)
    → c.cur_x ≡ x
    → x < 80
    → c.cur_y ≡ y
    → y < 25
    → IsShown (advance c) (next_cell (record { cells = cells; x = x; y = y })) c.vga
unfolding advance
advance-IsShown c cells x y same x_same x_bound y_same y_bound =
    let next = (c.cur_x + 1) % 2 ^ 32 in
    let moved = record c { cur_x = next } in
    elim (Bool-cases (ltb x 79)) [
      | inl inside ↦
          let stays : leb 80 next ≡ false = ground arith in
          record {
            after = moved;
            returned = if_false (leb 80 next) (new_line moved) (some moved) stays;
            shows = rw inside (record {
              cells = same;
              x_same = ground arith;
              y_same = y_same;
              x_bound = ground arith;
              y_bound = y_bound;
            });
            behind = λ a h. refl;
          }
      | inr last ↦
          let full : leb 80 next ≡ true = ground arith in
          let line = new_line-IsShown moved cells x y same y_same y_bound in
          record {
            after = line.after;
            returned = if_true (leb 80 next) (new_line moved) (some moved) full ∙ line.returned;
            shows = rw last line.shows;
            behind = line.behind;
          }
    ]

written-cell :
    (vga : ℕ → ℕ) (cells : ℕ → ℕ → ℕ) (g x y i j : ℕ)
    → ((a b : ℕ) → a < 80 → b < 25 → vga (a + b * 80) ≡ cells a b)
    → x < 80
    → i < 80
    → j < 25
    → put vga (x + y * 80) g (i + j * 80) ≡ (if i == x && j == y then g else cells i j)
written-cell vga cells g x y i j same x_bound i_bound j_bound =
    elim (Bool-cases (i == x && j == y)) [
      | inl here ↦ rw (here, eq→== (i + j * 80) (x + y * 80) (ground arith)) refl
      | inr other ↦
          rw (other, ne→== (i + j * 80) (x + y * 80) (λ e. ground arith)) (same i j i_bound j_bound)
    ]

console_putc-IsShown :
    (ch : ℕ) (c : Console) (scr : Screen)
    → Shows c scr
    → IsShown (console_putc ch c) (show ch scr) c.vga
unfolding console_putc
console_putc-IsShown ch c scr s =
    let returned = record c { cur_x = 0 } in
    let written = λ (slot : ℕ). record c { vga = put c.vga slot (cell_of ch) } in
    let put_cell = slot_from_xy c.cur_x c.cur_y >>= λ slot. advance (written slot) in
    let unless_return = if ch == 13 then some returned else put_cell in
    elim (Bool-cases (ch == 10)) [
      | inl line ↦
          let shown = new_line-IsShown c scr.cells scr.x scr.y s.cells s.y_same s.y_bound in
          record {
            after = shown.after;
            returned = if_true (ch == 10) (new_line c) unless_return line ∙ shown.returned;
            shows = rw line shown.shows;
            behind = shown.behind;
          }
      | inr other ↦ elim (Bool-cases (ch == 13)) [
        | inl back ↦ record {
          after = returned;
          returned =
              if_false (ch == 10) (new_line c) unless_return other
              ∙ if_true (ch == 13) (some returned) put_cell back;
          shows =
              rw (other, back)
                (record {
                  cells = s.cells;
                  x_same = refl;
                  y_same = s.y_same;
                  x_bound = omega arith;
                  y_bound = s.y_bound;
                });
          behind = λ a h. refl;
        }
        | inr char ↦
            let index = c.cur_x + c.cur_y * 80 in
            let cells = (write (cell_of ch) scr).cells in
            let shown =
              advance-IsShown (written index) cells scr.x scr.y
                (λ i j i_bound j_bound.
                  rw (s.x_same, s.y_same)
                    (written-cell c.vga scr.cells (cell_of ch) scr.x scr.y i j s.cells s.x_bound
                      i_bound j_bound))
                s.x_same s.x_bound s.y_same s.y_bound in
            record {
              after = shown.after;
              returned =
                  if_false (ch == 10) (new_line c) unless_return other
                  ∙ if_false (ch == 13) (some returned) put_cell char
                  ∙ bind_some (slot_from_xy c.cur_x c.cur_y) index (λ slot. advance (written slot))
                      (slot_from_xy-inside c.cur_x c.cur_y (omega (arith, s.x_same, s.x_bound))
                        (omega (arith, s.y_same, s.y_bound)))
                  ∙ shown.returned;
              shows = rw (other, char) shown.shows;
              behind = λ a h.
                  shown.behind a h
                  ∙ rw
                      (ne→== a index (λ e. omega (arith, s.x_same, s.x_bound, s.y_same, s.y_bound)))
                      refl;
            }
      ]
    ]

clear_cells-set_bytes : (n i : ℕ) (vga : ℕ → ℕ) → clear_cells n i vga ≡ set_bytes i 0 n vga
unfolding clear_cells set_bytes
clear_cells-set_bytes zero i vga = refl
clear_cells-set_bytes (suc n) i vga = clear_cells-set_bytes n (suc i) (put vga i 0)

-- The characters of a text, one call each, and what they show.
abbrev pub print : List ℕ → Console → Option Console
print [] c = some c
print (ch ∷ text) c = console_putc ch c >>= print text

abbrev pub shown : List ℕ → Screen → Screen
shown [] scr = scr
shown (ch ∷ text) scr = shown text (show ch scr)

print-IsShown :
    (text : List ℕ) (c : Console) (scr : Screen)
    → Shows c scr
    → IsShown (print text c) (shown text scr) c.vga
print-IsShown [] c scr s = record { after = c; returned = refl; shows = s; behind = λ a h. refl }
print-IsShown (ch ∷ text) c scr s =
    let first = console_putc-IsShown ch c scr s in
    let rest = print-IsShown text first.after (show ch scr) first.shows in
    record {
      after = rest.after;
      returned =
          bind_some (console_putc ch c) first.after (print text) first.returned ∙ rest.returned;
      shows = rest.shows;
      behind = λ a h. rest.behind a h ∙ first.behind a h;
    }

cleared-Shows : (c : Console) → Shows (console_init c) blank
unfolding console_init console_clear write_reg
cleared-Shows c = record {
  cells = λ x y x_bound y_bound.
      ap (λ vga. vga (x + y * 80)) (clear_cells-set_bytes 2000 0 c.vga)
      ∙ ap (set_bytes 0 0 2000 c.vga) (omega arith)
      ∙ set_bytes-inside 0 0 2000 c.vga (x + y * 80) (omega arith);
  x_same = refl;
  y_same = refl;
  x_bound = omega arith;
  y_bound = omega arith;
}

cleared-behind : (c : Console) (a : ℕ) → 2000 ≤ a → (console_init c).vga a ≡ c.vga a
unfolding console_init console_clear write_reg
cleared-behind c a h =
    ap (λ vga. vga a) (clear_cells-set_bytes 2000 0 c.vga)
    ∙ set_bytes-outside 0 0 2000 c.vga a (inr (omega arith))

-- After `console_init`, `console_putc` takes every text, character by character, without leaving the
-- screen: the console then shows the text as a screen of 25 rows of 80 cells does, which starts a new
-- line at a newline and behind the last column, goes back at a carriage return and moves all rows up
-- when there is no next line; the memory behind the console's is as it was.
pub print-init-IsShown :
    (text : List ℕ) (c : Console) → IsShown (print text (console_init c)) (shown text blank) c.vga
print-init-IsShown text c =
    let printed = print-IsShown text (console_init c) blank (cleared-Shows c) in
    record {
      after = printed.after;
      returned = printed.returned;
      shows = printed.shows;
      behind = λ a h. printed.behind a h ∙ cleared-behind c a h;
    }
