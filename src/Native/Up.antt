-- ===== src/Native/Up.antt =====
-- `platform_init` of platform/x86_64/native from the call to its return.
use simbench.Base.{
  ℕ, zero, suc, ◌+◌, ◌-◌, ◌*◌, ◌/◌, ◌%◌, ◌≤◌, ◌⊎◌, inl, inr, eq_or_ne, eq→==, ◌^◌, ◌<◌,
  if◌then◌else◌, ◌≡◌, ◌≢◌, refl, ap, ◌∙◌, arith, List, ◌∷◌, some, bit_and, ne→==,
}
use simbench.Trap.Apic.{
  timer, ticr, masked, last_write, lapic_timer_start, lapic_timer_stop, lapic_timer_reset,
}
use simbench.Printf.Stream.{printf_register_output, printf_register_debug, printf_register_error}
use simbench.Util.Bytes.{put}
use simbench.Console.Screen.{Console, clear_cells, console_clear, write_reg, console_init}
use simbench.Native.Ports.{
  PortAccess, inb, Pc, M, PcDevices, Outcome, returns, and_then, on_cpu, modify, ◌>>=◌, ◌>>◌,
}
use simbench.Native.Serial.{serial_init}
use simbench.Native.Timer.{
  wait_pit, timer_init, pit_init_oneshot, pit_start, lapic_timer_read, frequency_of,
}
use simbench.Native.Init.{native_platform_init, console_file, serial_file}

-- After `h`, the timer is seen to have expired at the read after `n` that do not see it.
pub data Expires (devices : PcDevices) : List PortAccess → ℕ → Type 0 where
  now : {h : List PortAccess} → bit_and (devices.port h 0x61 % 2 ^ 8) 0x20 ≡ 0 → Expires devices h 0
  later :
      {h : List PortAccess} {n : ℕ}
      → bit_and (devices.port h 0x61 % 2 ^ 8) 0x20 ≢ 0
      → Expires devices (inb 0x61 (devices.port h 0x61 % 2 ^ 8) ∷ h) n
      → Expires devices h (suc n)

-- The loop ends, and has done nothing but read the port.
record IsWaited (devices : PcDevices) (fuel : ℕ) (s : Pc) : Type 0 where
  ports : List PortAccess
  done : wait_pit devices fuel s ≡ returns tt (record s { ports = ports })

wait_pit-IsWaited :
    (devices : PcDevices) (fuel n : ℕ) (s : Pc)
    → Expires devices s.ports n
    → n < fuel
    → IsWaited devices fuel s
unfolding wait_pit
wait_pit-IsWaited devices zero n s x enough = absurd (omega arith)
wait_pit-IsWaited devices (suc fuel) zero s (now low) enough = record {
  ports = inb 0x61 (devices.port s.ports 0x61 % 2 ^ 8) ∷ s.ports;
  done = rw low refl;
}
wait_pit-IsWaited devices (suc fuel) (suc n) s (later high x) enough =
    let rest =
      wait_pit-IsWaited devices fuel n
        (record s { ports = inb 0x61 (devices.port s.ports 0x61 % 2 ^ 8) ∷ s.ports }) x
        (omega arith) in
    record { ports = rest.ports; done = rw (ne→== _ 0 high) rest.done }

-- The end of `timer_init`.
abbrev after_wait : PcDevices → M (Unit {0})
after_wait devices = do
  on_cpu lapic_timer_stop
  count ← lapic_timer_read devices
  modify (λ s. record s { lapic_frequency = frequency_of count })

-- The state in which `platform_init` begins to wait.
record IsWaiting (devices : PcDevices) (fuel : ℕ) (s : Pc) : Type 0 where
  at : Pc
  split :
      native_platform_init devices fuel s
      ≡ and_then (wait_pit devices fuel at) (λ _. after_wait devices)
  output :
      at.streams.output_file ≡ some (if s.cpu.use_framebuffer then console_file else serial_file)
  debug : at.streams.debug_file ≡ some console_file
  error : at.streams.error_file ≡ some console_file
  screen : at.console ≡ console_init s.console
  initial : last_write ticr at.cpu.lapic ≡ some 0xffffffff

native_platform_init-IsWaiting :
    (devices : PcDevices) (fuel : ℕ) (s : Pc) → IsWaiting devices fuel s
unfolding native_platform_init timer_init serial_init pit_init_oneshot pit_start lapic_timer_reset
    lapic_timer_start printf_register_output printf_register_debug printf_register_error
native_platform_init-IsWaiting devices fuel s = record {
  at = _;
  split = refl;
  output = refl;
  debug = refl;
  error = refl;
  screen = refl;
  initial = refl;
}

-- The loop of `console_clear` blanks the cells from `i` on, and no other.
clear_cells-outside :
    (n i cell : ℕ) (vga : ℕ → ℕ) → (cell < i) ⊎ (i + n ≤ cell) → clear_cells n i vga cell ≡ vga cell
unfolding clear_cells
clear_cells-outside zero i cell vga apart = refl
clear_cells-outside (suc n) i cell vga apart =
    clear_cells-outside n (suc i) cell (put vga i 0) (grind (arith, apart))
    ∙ rw (ne→== cell i (λ e. grind (arith, apart, e))) refl

clear_cells-inside :
    (n i cell : ℕ) (vga : ℕ → ℕ) → i ≤ cell → cell < i + n → clear_cells n i vga cell ≡ 0
unfolding clear_cells
clear_cells-inside zero i cell vga low high = absurd (omega arith)
clear_cells-inside (suc n) i cell vga low high = elim (eq_or_ne cell i) [
  | inl e ↦
      clear_cells-outside n (suc i) cell (put vga i 0) (inl (omega (arith, e)))
      ∙ rw (eq→== cell i e) refl
  | inr apart ↦ clear_cells-inside n (suc i) cell (put vga i 0) (omega (arith, apart)) (omega arith)
]

-- What `platform_init` left.
pub record IsUp (devices : PcDevices) (fuel : ℕ) (s : Pc) : Type 0 where
  pub after : Pc
  pub done : native_platform_init devices fuel s ≡ returns tt after
  pub output :
      after.streams.output_file ≡ some (if s.cpu.use_framebuffer then console_file else serial_file)
  pub debug : after.streams.debug_file ≡ some console_file
  pub error : after.streams.error_file ≡ some console_file
  pub blank : (cell : ℕ) → cell < 2000 → after.console.vga cell ≡ 0
  pub outside : (cell : ℕ) → 2000 ≤ cell → after.console.vga cell ≡ s.console.vga cell
  pub column : after.console.cur_x ≡ 0
  pub row : after.console.cur_y ≡ 0
  pub registers : after.console.registers ≡ (0x0a, 0x20) ∷ s.console.registers
  pub initial : last_write ticr after.cpu.lapic ≡ some 0xffffffff
  pub stopped : last_write timer after.cpu.lapic ≡ some masked
  pub frequency :
      after.lapic_frequency
      ≡ (0xffffffff - devices.tccr after.cpu after.ports % 2 ^ 32) * 16 % 2 ^ 32 / 100

-- Where the timer is always seen to have expired within the fuel, `platform_init` of the native
-- platform returns: the output goes to the console exactly if the command line asked for it, and to
-- the serial port otherwise, the messages go to the console, whose 2000 cells are
-- blank with the cursor at the first and hidden, the timer of the
-- local APIC counts from its highest value and is stopped, and the frequency is 16 times the ticks that
-- the timer counted down until then, cut to 32 bits and divided by 100.
pub native_platform_init-IsUp :
    (devices : PcDevices) (fuel : ℕ) (s : Pc)
    → ((h : List PortAccess) → (n : ℕ) × Expires devices h n × (n < fuel))
    → IsUp devices fuel s
unfolding lapic_timer_stop lapic_timer_read console_init console_clear write_reg
native_platform_init-IsUp devices fuel s expires =
    let w = native_platform_init-IsWaiting devices fuel s in
    let (n, x, enough) = expires w.at.ports in
    let waited = wait_pit-IsWaited devices fuel n w.at x enough in
    record {
      after = _;
      done =
          w.split
          ∙ ap (λ (o : Outcome Pc (Unit {0})). and_then o (λ _. after_wait devices)) waited.done;
      output = w.output;
      debug = w.debug;
      error = w.error;
      blank = λ cell below.
          ap (λ (c : Console). c.vga cell) w.screen
          ∙ clear_cells-inside 2000 0 cell s.console.vga (omega arith) (omega arith);
      outside = λ cell over.
          ap (λ (c : Console). c.vga cell) w.screen
          ∙ clear_cells-outside 2000 0 cell s.console.vga (inr (omega arith));
      column = ap (λ (c : Console). c.cur_x) w.screen;
      row = ap (λ (c : Console). c.cur_y) w.screen;
      registers = ap (λ (c : Console). c.registers) w.screen;
      initial = w.initial;
      stopped = refl;
      frequency = refl;
    }
