-- ===== src/Vmm/Shared.antt =====
-- The entries of pages that vmm_clone_address_space in src/kernel/vmm.c shares.
use zoho_os_chatbot.Base.{
  ℕ, ◌%◌, ◌^◌, ◌<◌, ◌≡◌, ◌≢◌, refl, sym, ap, ◌∙◌, true, false, ◌||◌, arith, inl, inr, Bool-cases,
  test_bit, set_bit, clear_bit, set_bit-lt, clear_bit-le, test_bit-set_bit_self,
  test_bit-set_bit_ne, test_bit-clear_bit_self, test_bit-clear_bit_ne,
}
use zoho_os_chatbot.Vmm.{is_present, frame_bits, with_flags}
use zoho_os_chatbot.Vmm.Entries.{with_flags_lem}
use zoho_os_chatbot.Vmm.Sharing.{is_writable, is_cow, guard_flags, shared_entry}

-- The entry that both tables have for a present one.
abbrev pub shared : ℕ → ℕ
shared e = shared_entry (frame_bits e) (e % 2 ^ 12)

-- A present entry that is not writable is shared as it is.
pub with_flags_self : (e : ℕ) → is_present e ≡ true → with_flags (frame_bits e) (e % 2 ^ 12) ≡ e
unfolding test_bit set_bit
with_flags_self e p = let odd : e % 2 ≡ 1 = ground (arith, p) in omega (arith, odd)

guard_flags-lt : (flags : ℕ) → flags < 2 ^ 12 → guard_flags flags < 2 ^ 12
guard_flags-lt flags h =
    set_bit-lt 12 (clear_bit flags 1) 9 (omega arith) (omega (arith, clear_bit-le flags 1))

-- A shared entry: the same frame and the same flags, but none may write, and that one could is noted.
pub record IsShared (e new : ℕ) : Type 0 where
  pub present : is_present new ≡ true
  pub frame : frame_bits new ≡ frame_bits e
  pub guarded : is_writable (new % 2 ^ 12) ≡ false
  pub noted : is_cow (new % 2 ^ 12) ≡ (is_writable (e % 2 ^ 12) || is_cow (e % 2 ^ 12))
  pub flags : (b : ℕ) → b ≢ 0 → b ≢ 1 → b ≢ 9 → test_bit (new % 2 ^ 12) b ≡ test_bit (e % 2 ^ 12) b

guarded-IsShared :
    (e : ℕ)
    → is_writable (e % 2 ^ 12) ≡ true
    → IsShared e (with_flags (frame_bits e) (guard_flags (e % 2 ^ 12)))
guarded-IsShared e w =
    let f = e % 2 ^ 12 in
    let g = guard_flags f in
    let l = with_flags_lem (frame_bits e) g (omega arith) (guard_flags-lt f (omega arith)) in
    record {
      present = l.0;
      frame = l.2;
      guarded =
          ap (λ n. is_writable n) l.3
          ∙ test_bit-set_bit_ne g 0 1 (omega arith)
          ∙ test_bit-set_bit_ne (clear_bit f 1) 9 1 (omega arith)
          ∙ test_bit-clear_bit_self f 1;
      noted =
          ap (λ n. is_cow n) l.3
          ∙ test_bit-set_bit_ne g 0 9 (omega arith)
          ∙ test_bit-set_bit_self (clear_bit f 1) 9
          ∙ ap (λ b. b || is_cow f) (sym w);
      flags = λ b z o n.
          ap (λ x. test_bit x b) l.3
          ∙ test_bit-set_bit_ne g 0 b (λ q. z (sym q))
          ∙ test_bit-set_bit_ne (clear_bit f 1) 9 b (λ q. n (sym q))
          ∙ test_bit-clear_bit_ne f 1 b (λ q. o (sym q));
    }

pub shared-IsShared : (e : ℕ) → is_present e ≡ true → IsShared e (shared e)
shared-IsShared e p = elim (Bool-cases (is_writable (e % 2 ^ 12))) [
  | inl y ↦ rw y (guarded-IsShared e y)
  | inr n ↦
      rw (n, with_flags_self e p)
        (record {
          present = p;
          frame = refl;
          guarded = n;
          noted = rw n refl;
          flags = λ b z o k. refl;
        })
]
