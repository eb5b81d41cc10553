-- ===== src/Pmm/Bitmap.antt =====
-- The three bitmap helpers of src/kernel/pmm.c as an array of bits.
use zoho_os_chatbot.Base.{
  ℕ, ◌/◌, ◌%◌, ◌≡◌, ◌≢◌, true, false, arith, test_bit-set_bit_self, test_bit-set_bit_ne,
  test_bit-clear_bit_self, test_bit-clear_bit_ne,
}
use zoho_os_chatbot.Pmm.{Bitmap, bitmap_set, bitmap_unset, bitmap_test}

pub bitmap_test-set_self : (b : Bitmap) (f : ℕ) → bitmap_test (bitmap_set b f) f ≡ true
unfolding bitmap_test bitmap_set
bitmap_test-set_self b f = ground (arith, test_bit-set_bit_self (b (f / 32)) (f % 32))

pub bitmap_test-unset_self : (b : Bitmap) (f : ℕ) → bitmap_test (bitmap_unset b f) f ≡ false
unfolding bitmap_test bitmap_unset
bitmap_test-unset_self b f = ground (arith, test_bit-clear_bit_self (b (f / 32)) (f % 32))

pub bitmap_test-set_ne :
    (b : Bitmap) (f g : ℕ) → f ≢ g → bitmap_test (bitmap_set b f) g ≡ bitmap_test b g
unfolding bitmap_test bitmap_set
bitmap_test-set_ne b f g h = ground (arith, test_bit-set_bit_ne (b (f / 32)) (f % 32) (g % 32))

pub bitmap_test-unset_ne :
    (b : Bitmap) (f g : ℕ) → f ≢ g → bitmap_test (bitmap_unset b f) g ≡ bitmap_test b g
unfolding bitmap_test bitmap_unset
bitmap_test-unset_ne b f g h = ground (arith, test_bit-clear_bit_ne (b (f / 32)) (f % 32) (g % 32))
