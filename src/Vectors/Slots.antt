-- ===== src/Vectors/Slots.antt =====
-- The slots that the installations of arch/arm/exception.c write.
use simbench.Base.{
  ℕ, ◌+◌, ◌-◌, ◌%◌, ◌^◌, ◌≤◌, ◌<◌, ◌≡◌, ◌≢◌, refl, sym, ap, ◌∙◌, arith, ne→==, eq→==,
}
use simbench.Vectors.Install.{
  Symbols, Core, vector_location, install, install_pabt, install_dabt, install_swi, install_undef,
  arch_ifault_install_return, arch_ifault_install_break, arch_dfault_install_skip,
  arch_syscall_install_skip, arch_undef_install_skip,
}

-- The symbols are 32-bit addresses, and the four words are behind the start of the vectors, at
-- different addresses.
pub record AreSlots (sym : Symbols) : Type 0 where
  pub start_bound : sym.vectors_start < 2 ^ 32
  pub pabt_inside : sym.vectors_start ≤ sym.pabt_handler
  pub dabt_inside : sym.vectors_start ≤ sym.dabt_handler
  pub swi_inside : sym.vectors_start ≤ sym.swi_handler
  pub undef_inside : sym.vectors_start ≤ sym.undef_handler
  pub relocate_bound : sym.vectors_relocate < 2 ^ 32
  pub pabt_bound : sym.pabt_handler < 2 ^ 32
  pub dabt_bound : sym.dabt_handler < 2 ^ 32
  pub swi_bound : sym.swi_handler < 2 ^ 32
  pub undef_bound : sym.undef_handler < 2 ^ 32
  pub pabt_dabt : sym.pabt_handler ≢ sym.dabt_handler
  pub pabt_swi : sym.pabt_handler ≢ sym.swi_handler
  pub pabt_undef : sym.pabt_handler ≢ sym.undef_handler
  pub dabt_swi : sym.dabt_handler ≢ sym.swi_handler
  pub dabt_undef : sym.dabt_handler ≢ sym.undef_handler
  pub swi_undef : sym.swi_handler ≢ sym.undef_handler

-- Different words of the vectors have different places in the relocated copy.
vector_location-ne :
    (sy : Symbols) (a b : ℕ)
    → AreSlots sy
    → a < 2 ^ 32
    → b < 2 ^ 32
    → a ≢ b
    → vector_location sy a ≢ vector_location sy b
unfolding vector_location
vector_location-ne sy a b slots a_bound b_bound differ e =
    differ (omega (arith, slots.start_bound, slots.relocate_bound))

installed :
    (sy : Symbols) (handler location : ℕ) (s : Core)
    → (install sy handler location s).memory (vector_location sy handler) ≡ location
unfolding install
installed sy handler location s =
    rw (eq→== (vector_location sy handler) (vector_location sy handler) refl) refl

install-other :
    (sy : Symbols) (handler location : ℕ) (s : Core) (a : ℕ)
    → a ≢ vector_location sy handler
    → (install sy handler location s).memory a ≡ s.memory a
unfolding install
install-other sy handler location s a differ = rw (ne→== a (vector_location sy handler) differ) refl

-- All handlers that the benchmarks ask for, one after the other.
abbrev pub install_all : Symbols → Core → Core
install_all sy s =
    arch_undef_install_skip sy
      (arch_syscall_install_skip sy (arch_dfault_install_skip sy (arch_ifault_install_return sy s)))

-- What the installations do, with the addresses that the code computes.
record IsFilled (sy : Symbols) (s : Core) : Type 0 where
  pabt : (install_all sy s).memory (vector_location sy sy.pabt_handler) ≡ sy.pabt_return
  dabt : (install_all sy s).memory (vector_location sy sy.dabt_handler) ≡ sy.dabt_skip
  swi : (install_all sy s).memory (vector_location sy sy.swi_handler) ≡ sy.swi_skip
  undef : (install_all sy s).memory (vector_location sy sy.undef_handler) ≡ sy.undef_skip
  replaced :
      (arch_ifault_install_break sy (install_all sy s)).memory (vector_location sy sy.pabt_handler)
      ≡ sy.default_handler
  same :
      (a : ℕ)
      → a ≢ vector_location sy sy.pabt_handler
      → a ≢ vector_location sy sy.dabt_handler
      → a ≢ vector_location sy sy.swi_handler
      → a ≢ vector_location sy sy.undef_handler
      → (install_all sy s).memory a ≡ s.memory a

install_all-IsFilled : (sy : Symbols) (s : Core) → AreSlots sy → IsFilled sy s
unfolding arch_undef_install_skip arch_syscall_install_skip arch_dfault_install_skip
    arch_ifault_install_return arch_ifault_install_break install_pabt install_dabt install_swi
    install_undef
install_all-IsFilled sy s slots =
    let one = install sy sy.pabt_handler sy.pabt_return s in
    let two = install sy sy.dabt_handler sy.dabt_skip one in
    let three = install sy sy.swi_handler sy.swi_skip two in
    let ne : (a b : ℕ)
        → a < 2 ^ 32
        → b < 2 ^ 32
        → a ≢ b
        → vector_location sy a ≢ vector_location sy b =
      λ a b. vector_location-ne sy a b slots in
    record {
      pabt =
          install-other sy sy.undef_handler sy.undef_skip three _ (
            ne sy.pabt_handler sy.undef_handler slots.pabt_bound slots.undef_bound slots.pabt_undef)
          ∙ install-other sy sy.swi_handler sy.swi_skip two _
              (ne sy.pabt_handler sy.swi_handler slots.pabt_bound slots.swi_bound slots.pabt_swi)
          ∙ install-other sy sy.dabt_handler sy.dabt_skip one _
              (ne sy.pabt_handler sy.dabt_handler slots.pabt_bound slots.dabt_bound slots.pabt_dabt)
          ∙ installed sy sy.pabt_handler sy.pabt_return s;
      dabt =
          install-other sy sy.undef_handler sy.undef_skip three _ (
            ne sy.dabt_handler sy.undef_handler slots.dabt_bound slots.undef_bound slots.dabt_undef)
          ∙ install-other sy sy.swi_handler sy.swi_skip two _
              (ne sy.dabt_handler sy.swi_handler slots.dabt_bound slots.swi_bound slots.dabt_swi)
          ∙ installed sy sy.dabt_handler sy.dabt_skip one;
      swi =
          install-other sy sy.undef_handler sy.undef_skip three _
            (ne sy.swi_handler sy.undef_handler slots.swi_bound slots.undef_bound slots.swi_undef)
          ∙ installed sy sy.swi_handler sy.swi_skip two;
      undef = installed sy sy.undef_handler sy.undef_skip three;
      replaced =
          installed sy sy.pabt_handler sy.default_handler
            (install sy sy.undef_handler sy.undef_skip three);
      same = λ a pabt dabt swi undef.
          install-other sy sy.undef_handler sy.undef_skip three a undef
          ∙ install-other sy sy.swi_handler sy.swi_skip two a swi
          ∙ install-other sy sy.dabt_handler sy.dabt_skip one a dabt
          ∙ install-other sy sy.pabt_handler sy.pabt_return s a pabt;
    }

-- The word of the relocated copy that is as far from its start as `vector` is from the start of the
-- vectors.
abbrev pub slot : Symbols → ℕ → ℕ
slot sy vector = (sy.vectors_relocate + (vector - sy.vectors_start)) % 2 ^ 32

vector_location-slot :
    (sy : Symbols) (vector : ℕ)
    → AreSlots sy
    → sy.vectors_start ≤ vector
    → vector < 2 ^ 32
    → vector_location sy vector ≡ slot sy vector
unfolding vector_location
vector_location-slot sy vector slots inside bound = omega (arith, slots.start_bound)

pub record IsInstalled (sy : Symbols) (s : Core) : Type 0 where
  pub pabt : (install_all sy s).memory (slot sy sy.pabt_handler) ≡ sy.pabt_return
  pub dabt : (install_all sy s).memory (slot sy sy.dabt_handler) ≡ sy.dabt_skip
  pub swi : (install_all sy s).memory (slot sy sy.swi_handler) ≡ sy.swi_skip
  pub undef : (install_all sy s).memory (slot sy sy.undef_handler) ≡ sy.undef_skip
  pub replaced :
      (arch_ifault_install_break sy (install_all sy s)).memory (slot sy sy.pabt_handler)
      ≡ sy.default_handler
  pub same :
      (a : ℕ)
      → a ≢ slot sy sy.pabt_handler
      → a ≢ slot sy sy.dabt_handler
      → a ≢ slot sy sy.swi_handler
      → a ≢ slot sy sy.undef_handler
      → (install_all sy s).memory a ≡ s.memory a

-- With 32-bit addresses and four different words behind the start of the vectors, wherever these
-- are relocated, the installations of the four handlers fill the words that are as far from the
-- start of the relocated copy with their routines and change no other word, and
-- `arch_ifault_install_break` afterwards replaces the handler of prefetch aborts.
pub install_all-IsInstalled : (sy : Symbols) (s : Core) → AreSlots sy → IsInstalled sy s
install_all-IsInstalled sy s slots =
    let x = install_all-IsFilled sy s slots in
    let at = λ (vector : ℕ) (inside : sy.vectors_start ≤ vector) (bound : vector < 2 ^ 32).
      vector_location-slot sy vector slots inside bound in
    let pabt = at sy.pabt_handler slots.pabt_inside slots.pabt_bound in
    let dabt = at sy.dabt_handler slots.dabt_inside slots.dabt_bound in
    let swi = at sy.swi_handler slots.swi_inside slots.swi_bound in
    let undef = at sy.undef_handler slots.undef_inside slots.undef_bound in
    let all = (install_all sy s).memory in
    record {
      pabt = ap all (sym pabt) ∙ x.pabt;
      dabt = ap all (sym dabt) ∙ x.dabt;
      swi = ap all (sym swi) ∙ x.swi;
      undef = ap all (sym undef) ∙ x.undef;
      replaced =
          ap (arch_ifault_install_break sy (install_all sy s)).memory (sym pabt) ∙ x.replaced;
      same = λ a not_pabt not_dabt not_swi not_undef.
          x.same a (λ e. not_pabt (e ∙ pabt)) (λ e. not_dabt (e ∙ dabt)) (λ e. not_swi (e ∙ swi))
            (λ e. not_undef (e ∙ undef));
    }
