-- ===== src/Decode/Length.antt =====
-- `inst->length` of arch/x86_64/decode.c, by which the data-fault handler advances `rip`.
use simbench.Base.{
  ℕ, suc, ◌+◌, ◌-◌, ◌≤◌, ◌<◌, ◌≡◌, ◌≢◌, refl, ap, sym, ◌∙◌, Bool, true, false, List, [], ◌∷◌, ◌++◌,
  length, length-append, arith, none, some, ◌==◌, ne→==, bit_or, bit_at-bit_or, Option-cases,
  Bool-cases, inl, inr,
}
use simbench.Decode.Cursor.{ok, refused, fault}
use simbench.Decode.Types.{Instruction}
use simbench.Decode.Operands.{prefix_flags, read_prefixes}
use simbench.Decode.Inst.{decode_opcode, read_opcode, decode_body, set_length, decode_instruction}
use simbench.Decode.Parts.{Reads-decode_opcode}
use mathlib.Core.List.{append_assoc}
use simbench.Decode.Reads.{and_then-eq-ok, and_then-ne-fault, length-split, Reads, IsTaken}

-- Bit 8 keeps a two-byte opcode apart from every case of the switch.
two_byte_ne : (low k : ℕ) → k < 256 → (bit_or 0x100 low == k) ≡ false
two_byte_ne low k h = ne→== _ k (omega (arith, bit_at-bit_or 8 0x100 low))

-- Every two-byte opcode is refused: no case of the switch of `decode_instruction` has bit 8.
pub decode_opcode-two_byte :
    (u : Bool) (p low : ℕ) (inst : Instruction) (code : List ℕ)
    → decode_opcode u p (bit_or 0x100 low) inst code ≡ refused
unfolding decode_opcode
decode_opcode-two_byte u p low inst code = rw (
  two_byte_ne low 0xa1 (omega arith),
  two_byte_ne low 0x88 (omega arith),
  two_byte_ne low 0x89 (omega arith),
  two_byte_ne low 0x8a (omega arith),
  two_byte_ne low 0x8b (omega arith),
  two_byte_ne low 0xc7 (omega arith),
  two_byte_ne low 0xcd (omega arith),
)

module _ (u : Bool) (p : ℕ) (inst : Instruction) where
  body_one_byte :
      (b : ℕ) (code : List ℕ)
      → (b == 0x0f) ≡ false
      → decode_body u p inst (b ∷ code) ≡ decode_opcode u p b inst code
  unfolding decode_body read_opcode
  body_one_byte b code e = rw e

  body_two_byte :
      (b c : ℕ) (code : List ℕ) → (b == 0x0f) ≡ true → decode_body u p inst (b ∷ c ∷ code) ≡ refused
  unfolding decode_body read_opcode
  body_two_byte b c code e = rw e (decode_opcode-two_byte u p c inst code)

  body_end : (b : ℕ) → (b == 0x0f) ≡ true → decode_body u p inst (b ∷ []) ≡ fault
  unfolding decode_body read_opcode
  body_end b e = rw e

  body_nil : decode_body u p inst [] ≡ fault
  unfolding decode_body read_opcode
  body_nil = refl

  body_takes :
      (code : List ℕ) (a : Instruction) (rest : List ℕ)
      → decode_body u p inst code ≡ ok a rest
      → IsTaken 2 9 (decode_body u p inst) code a rest
  body_takes [] a rest e = cc (body_nil)
  body_takes (b ∷ code) a rest e = elim (Bool-cases (b == 0x0f)) [
    | inl two ↦ absurd (impossible code two e)
    | inr one ↦
        let t =
          (Reads-decode_opcode u p b inst).takes code a rest (sym (body_one_byte b code one) ∙ e) in
        record {
          used = b ∷ t.used;
          split = ap (λ w. b ∷ w) t.split;
          at_least = omega (arith, t.at_least);
          at_most = omega (arith, t.at_most);
          extend = λ more. body_one_byte b (code ++ more) one ∙ t.extend more;
        }
  ]
    where
      impossible :
          (code : List ℕ) → (b == 0x0f) ≡ true → decode_body u p inst (b ∷ code) ≡ ok a rest → ⊥
      impossible [] two e = cc (body_end b two)
      impossible (c ∷ code) two e = cc (body_two_byte b c code two)

  body_enough : (code : List ℕ) → 9 ≤ length code → decode_body u p inst code ≢ fault
  body_enough [] h e = elim h [ ]
  body_enough (b ∷ []) h e = absurd (omega arith)
  body_enough (b ∷ c ∷ code) h e = elim (Bool-cases (b == 0x0f)) [
    | inl two ↦ cc (body_two_byte b c code two)
    | inr one ↦
        (Reads-decode_opcode u p b inst).enough (c ∷ code) (omega arith)
          (sym (body_one_byte b (c ∷ code) one) ∙ e)
  ]

  -- After the prefixes an instruction takes two to nine bytes.
  pub Reads-decode_body : Reads 2 9 (decode_body u p inst)
  Reads-decode_body = record { takes = body_takes; enough = body_enough }

-- The number of prefix bytes that the code begins with.
unfoldable pub prefix_count : List ℕ → ℕ
prefix_count [] = 0
prefix_count (b ∷ code) = elim (prefix_flags b) [ none ↦ 0 | some flags ↦ suc (prefix_count code) ]

prefixes-IsTaken :
    (p : ℕ) (code : List ℕ) (flags : ℕ) (rest : List ℕ)
    → read_prefixes p code ≡ ok flags rest
    → IsTaken (prefix_count code) (prefix_count code) (read_prefixes p) code flags rest
unfolding read_prefixes prefix_count
prefixes-IsTaken p [] flags rest e = cc
prefixes-IsTaken p (b ∷ code) flags rest e = elim (Option-cases (prefix_flags b)) [
  | inl other ↦ record {
    used = [];
    split = ground (arith, other, e);
    at_least = ground (arith, other);
    at_most = omega arith;
    extend = λ more. ground (arith, other, e);
  }
  | inr (f, found) ↦
      let t = prefixes-IsTaken (bit_or p f) code flags rest (rw (found, read_prefixes) at e) in
      record {
        used = b ∷ t.used;
        split = ap (λ w. b ∷ w) t.split;
        at_least = ground (arith, found, t.at_least);
        at_most = ground (arith, found, t.at_most);
        extend = λ more. rw (found, read_prefixes) (t.extend more);
      }
]

-- A decoded instruction: the bytes `used` that its length counts, of which `prefixes` are
-- prefixes, and that bytes appended behind change nothing.
pub record IsDecoded (u : Bool) (inst : Instruction) (code : List ℕ) (out : Instruction)
    (rest : List ℕ) : Type 0 where
  pub used : List ℕ
  pub split : code ≡ used ++ rest
  pub counted : out.length ≡ length used
  pub at_least : prefix_count code + 2 ≤ out.length
  pub at_most : out.length ≤ prefix_count code + 9
  pub extend : (more : List ℕ) → decode_instruction u inst (code ++ more) ≡ ok out (rest ++ more)

set_length_inv :
    (code : List ℕ) (d : Instruction) (mid : List ℕ) (out : Instruction) (rest : List ℕ)
    → set_length code d mid ≡ ok out rest
    → (out ≡ record d { length = length code - length mid }) × (rest ≡ mid)
set_length_inv code d mid out rest e = (cc, cc)

module _ (u : Bool) (inst : Instruction) (code : List ℕ) {p : ℕ} {d : Instruction} {c1 c2 : List ℕ}
    (t1 : IsTaken (prefix_count code) (prefix_count code) (read_prefixes 0) code p c1)
    (t2 : IsTaken 2 9 (decode_body u p inst) c1 d c2) where
  taken : length code - length c2 ≡ length t1.used + length t2.used
  taken = omega (arith, length-split t1.used c1 t1.split, length-split t2.used c2 t2.split)

  extended :
      (more : List ℕ)
      → decode_instruction u inst (code ++ more)
        ≡ ok (record d { length = length code - length c2 }) (c2 ++ more)
  unfolding decode_instruction
  extended more =
      rw (t1.extend more, t2.extend more)
        (ap (λ n. ok (record d { length = n }) (c2 ++ more))
          (omega (arith, length-append code more, length-append c2 more)))

  assemble : IsDecoded u inst code (record d { length = length code - length c2 }) c2
  assemble = record {
    used = t1.used ++ t2.used;
    split = t1.split ∙ ap (λ w. t1.used ++ w) t2.split ∙ sym (append_assoc t1.used t2.used c2);
    counted = omega (arith, taken, length-append t1.used t2.used);
    at_least = omega (arith, taken, t1.at_least, t2.at_least);
    at_most = omega (arith, taken, t1.at_most, t2.at_most);
    extend = extended;
  }

-- On every success `inst->length` is the number of bytes taken from the code: the prefixes and two
-- to nine bytes more. The result does not change when bytes are appended to the code.
pub decode_instruction-IsDecoded :
    (u : Bool) (inst : Instruction) (code : List ℕ) (out : Instruction) (rest : List ℕ)
    → decode_instruction u inst code ≡ ok out rest
    → IsDecoded u inst code out rest
unfolding decode_instruction
decode_instruction-IsDecoded u inst code out rest e =
    let (p, c1, e1, f1) = and_then-eq-ok (read_prefixes 0 code) _ e in
    let (d, c2, e2, f2) = and_then-eq-ok (decode_body u p inst c1) _ f1 in
    let (same, left) = set_length_inv code d c2 out rest f2 in
    rw (same, left)
      (assemble u inst code (prefixes-IsTaken 0 code p c1 e1) (body_takes u p inst c1 d c2 e2))

prefixes_enough :
    (p : ℕ) (code : List ℕ) → prefix_count code < length code → read_prefixes p code ≢ fault
unfolding read_prefixes prefix_count
prefixes_enough p [] h e = elim h [ ]
prefixes_enough p (b ∷ code) h e = elim (Option-cases (prefix_flags b)) [
  | inl other ↦ ground (arith, other, e)
  | inr (f, found) ↦
      prefixes_enough (bit_or p f) code (ground (arith, found, h)) (rw (found, read_prefixes) at e)
]

-- Nine bytes behind the prefixes are enough: the decoder then reads nothing past them.
pub decode_instruction-ne-fault :
    (u : Bool) (inst : Instruction) (code : List ℕ)
    → prefix_count code + 9 ≤ length code
    → decode_instruction u inst code ≢ fault
unfolding decode_instruction
decode_instruction-ne-fault u inst code h =
    and_then-ne-fault (read_prefixes 0 code) _ (prefixes_enough 0 code (omega arith)) λ p c1 e1.
      let t1 = prefixes-IsTaken 0 code p c1 e1 in
      let room : 9 ≤ length c1 = omega (arith, length-split t1.used c1 t1.split, t1.at_most) in
      and_then-ne-fault (decode_body u p inst c1) _ (body_enough u p inst c1 room)
        λ d c2 e2. λ bad. cc
