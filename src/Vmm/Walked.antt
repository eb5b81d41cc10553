-- ===== src/Vmm/Walked.antt =====
-- The walk of src/kernel/vmm.c to the page directory of an address, which makes the tables that are
-- missing.
use zoho_os_chatbot.Base.{
  ℕ, ◌+◌, ◌<◌, ◌≤◌, ◌≡◌, ◌≢◌, refl, sym, ap, ◌∙◌, false, arith, ◌==◌, length, inl, inr, ◌⊎◌,
  test_bit,
}
use mathlib.Core.Path.{subst}
use zoho_os_chatbot.Vmm.{
  Memory, pml4_index, pdpt_index, pd_index, is_huge, Vmm, get_existing_table, find_pd,
}
use zoho_os_chatbot.Vmm.Tables.{Levels, IsTree, Grown}

pub get_existing-cong :
    (m n : Memory) (t i : ℕ) → m t i ≡ n t i → get_existing_table m t i ≡ get_existing_table n t i
unfolding get_existing_table
get_existing-cong m n t i e = rw e refl

pub get_existing-none : (m : Memory) (t i : ℕ) → m t i ≡ 0 → get_existing_table m t i ≡ 0
unfolding get_existing_table test_bit
get_existing-none m t i e = rw e refl

pub find_pd_lem :
    (mem : Memory) (pml4 virt pdpt pd : ℕ)
    → get_existing_table mem pml4 (pml4_index virt) ≡ pdpt
    → pdpt ≢ 0
    → get_existing_table mem pdpt (pdpt_index virt) ≡ pd
    → find_pd mem pml4 virt ≡ pd
unfolding find_pd
find_pd_lem mem pml4 virt pdpt pd e n f =
    let z : (pdpt == 0) ≡ false = ground (arith, n) in rw (e, z, f) refl

-- The way to the page directory of an address: `new` are the levels, and it is found in every memory
-- that agrees with the state on the tables above.
pub record Walked (v w : Vmm) (pml4 virt pd : ℕ) (new : Levels) : Type 0 where
  pub tree : IsTree new w
  pub root : new pml4 ≡ 4
  pub level : new pd ≡ 2
  pub real : pd ≢ 0
  pub found :
      (mem : Memory) → ((t i : ℕ) → 3 ≤ new t → mem t i ≡ w.memory t i) → find_pd mem pml4 virt ≡ pd
  pub room : length v.pmm.free_stack ≤ length w.pmm.free_stack + 2
  pub old :
      (is_huge (w.memory pd (pd_index virt)) ≡ false)
      ⊎ ((find_pd v.memory pml4 virt ≡ pd)
          × (w.memory pd (pd_index virt) ≡ v.memory pd (pd_index virt)))

pub Walked-two :
    (v v1 v2 : Vmm) (pml4 virt pdpt pd : ℕ) (l l1 l2 : Levels)
    → l pml4 ≡ 4
    → Grown l l1 v v1 pml4 (pml4_index virt) pdpt
    → Grown l1 l2 v1 v2 pdpt (pdpt_index virt) pd
    → Walked v v2 pml4 virt pd l2
unfolding test_bit
Walked-two v v1 v2 pml4 virt pdpt pd l l1 l2 e g h = record {
  tree = h.tree;
  root = root;
  level = level;
  real = h.real;
  found = found;
  room = omega (arith, g.room, h.room);
  old = old g.origin h.origin;
}
  where
    k1 : l1 pml4 ≡ 4
    k1 = g.kept pml4 (omega arith) ∙ e

    p1 : l1 pdpt ≡ 3
    p1 = omega (arith, g.below)

    root : l2 pml4 ≡ 4
    root = h.kept pml4 (omega (arith, k1)) ∙ k1

    p2 : l2 pdpt ≡ 3
    p2 = h.kept pdpt (omega (arith, p1)) ∙ p1

    level : l2 pd ≡ 2
    level = omega (arith, h.below, p1)

    apart : pml4 ≢ pdpt
    apart q = omega (arith, k1, p1, ap l1 q)

    found :
        (mem : Memory)
        → ((t i : ℕ) → 3 ≤ l2 t → mem t i ≡ v2.memory t i)
        → find_pd mem pml4 virt ≡ pd
    found mem s =
        find_pd_lem mem pml4 virt pdpt pd
          (get_existing-cong mem v1.memory pml4 (pml4_index virt) (
              s pml4 (pml4_index virt) (omega (arith, root))
              ∙ h.same pml4 (pml4_index virt) (omega (arith, k1)) (inl apart))
            ∙ g.linked)
          g.real
          (get_existing-cong mem v2.memory pdpt (pdpt_index virt)
              (s pdpt (pdpt_index virt) (omega (arith, p2)))
            ∙ h.linked)

    zero_plain : (n : ℕ) → n ≡ 0 → is_huge n ≡ false
    zero_plain n z = rw z refl

    old :
        ((v1 ≡ v) × (get_existing_table v.memory pml4 (pml4_index virt) ≡ pdpt))
          ⊎ ((i : ℕ) → i < 512 → v1.memory pdpt i ≡ 0)
        → ((v2 ≡ v1) × (get_existing_table v1.memory pdpt (pdpt_index virt) ≡ pd))
          ⊎ ((i : ℕ) → i < 512 → v2.memory pd i ≡ 0)
        → (is_huge (v2.memory pd (pd_index virt)) ≡ false)
          ⊎ ((find_pd v.memory pml4 virt ≡ pd)
              × (v2.memory pd (pd_index virt) ≡ v.memory pd (pd_index virt)))
    old o (inr z) =
        inl (zero_plain (v2.memory pd (pd_index virt)) (z (pd_index virt) (omega arith)))
    old (inl (a, b)) (inl (c, d)) = inr (
      find_pd_lem v.memory pml4 virt pdpt pd b g.real
          (ap (λ (s : Vmm). get_existing_table s.memory pdpt (pdpt_index virt)) (sym a) ∙ d),
      ap (λ (s : Vmm). s.memory pd (pd_index virt)) (c ∙ a),
    )
    old (inr z) (inl (c, d)) =
        let q =
          get_existing-none v1.memory pdpt (pdpt_index virt) (z (pdpt_index virt) (omega arith)) in
        absurd (h.real (sym d ∙ q))

-- No huge page at an address, seen after the walk to it.
pub Walked-plain :
    (v w : Vmm) (pml4 virt pd : ℕ) (l : Levels)
    → Walked v w pml4 virt pd l
    → is_huge (v.memory (find_pd v.memory pml4 virt) (pd_index virt)) ≡ false
    → is_huge (w.memory pd (pd_index virt)) ≡ false
Walked-plain v w pml4 virt pd l k nh = elim k.old [
  | inl n ↦ n
  | inr (f, s) ↦
      ap (λ (n : ℕ). is_huge n) s ∙ subst (λ t. is_huge (v.memory t (pd_index virt)) ≡ false) f nh
]
