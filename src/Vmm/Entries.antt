-- ===== src/Vmm/Entries.antt =====
-- The bits of an entry in src/kernel/vmm.c: an address above, flags below.
use zoho_os_chatbot.Base.{
  ℕ, ◌+◌, ◌*◌, ◌/◌, ◌%◌, ◌^◌, ◌<◌, ◌≡◌, refl, ap, ◌∙◌, true, arith, ◌==◌, test_bit, set_bit,
  test_bit-set_bit_self, test_bit-set_bit_ne,
}
use zoho_os_chatbot.Vmm.{frame_bits, with_flags, is_present, is_huge}

set_bit-0 : (x : ℕ) → set_bit x 0 ≡ x / 2 * 2 + 1
unfolding set_bit
set_bit-0 x = refl

-- Bits 0 and 7 of the low twelve do not see what is above.
pub test_bit-above :
    (b f : ℕ)
    → f < 2 ^ 12
    → (test_bit (b * 2 ^ 12 + f) 0 ≡ test_bit f 0) × (test_bit (b * 2 ^ 12 + f) 7 ≡ test_bit f 7)
unfolding test_bit
test_bit-above b f h = (ap (λ x. x == 1) (omega arith), ap (λ x. x == 1) (omega arith))

-- An entry made of an aligned address and flags has the address, the flags and its present bit.
pub with_flags_lem :
    (base flags : ℕ)
    → base % 2 ^ 12 ≡ 0
    → flags < 2 ^ 12
    → (is_present (with_flags base flags) ≡ true)
      × (is_huge (with_flags base flags) ≡ is_huge flags)
      × (frame_bits (with_flags base flags) ≡ base)
      × (with_flags base flags % 2 ^ 12 ≡ set_bit flags 0)
with_flags_lem base flags al lt =
    let s = set_bit-0 flags in
    let small : set_bit flags 0 < 2 ^ 12 = omega (arith, s) in
    let e : base + set_bit flags 0 ≡ base / 2 ^ 12 * 2 ^ 12 + set_bit flags 0 = omega arith in
    let t = test_bit-above (base / 2 ^ 12) (set_bit flags 0) small in
    (
      ap (λ x. test_bit x 0) e ∙ t.0 ∙ test_bit-set_bit_self flags 0,
      ap (λ x. test_bit x 7) e ∙ t.1 ∙ test_bit-set_bit_ne flags 0 7 (omega arith),
      omega (arith, small),
      omega (arith, small),
    )

pub set_bit-small : (flags : ℕ) → flags < 2 ^ 12 → set_bit flags 0 < 2 ^ 12
set_bit-small flags h = omega (arith, set_bit-0 flags)
