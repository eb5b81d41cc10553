-- ===== src/Vmm/Tables.antt =====
-- The tables of src/kernel/vmm.c as a tree: each table has a level, and entries lead one level down.
use zoho_os_chatbot.Base.{
  ℕ, ◌+◌, ◌-◌, ◌%◌, ◌^◌, ◌<◌, ◌≤◌, ◌≡◌, ◌≢◌, refl, sym, ap, ◌∙◌, true, false, ◌&&◌, arith, ◌==◌,
  update, List, [], ◌∷◌, length, All, has, Distinct, Bool-cases, inl, inr, ◌⊎◌, test_bit,
}
use mathlib.Core.Path.{subst}
use zoho_os_chatbot.Pmm.Invariant.{alloc_frame-cons}
use zoho_os_chatbot.Pmm.{Pmm, alloc_frame}
use zoho_os_chatbot.Vmm.{
  Memory, write_entry, is_present, is_huge, frame_bits, with_flags, Vmm, clear_table,
  alloc_zeroed_table, get_existing_table, ensure_next_table,
}
use zoho_os_chatbot.Vmm.Entries.{with_flags_lem}

-- The levels 4 to 1; 0 is no table. `root` is not a table that an entry can name.
abbrev pub Levels : Type 0
Levels = ℕ → ℕ

-- A present entry, of the 512, of a table above the last level leads one level down, but for huge pages at level
-- 2. Frames on the free stack are no tables, and are real, aligned and distinct.
pub record IsTree (level : Levels) (v : Vmm) : Type 0 where
  pub down :
      (t i : ℕ)
      → i < 512
      → 2 ≤ level t
      → is_present (v.memory t i) ≡ true
      → (level t ≡ 2 → is_huge (v.memory t i) ≡ false)
      → (level (frame_bits (v.memory t i)) + 1 ≡ level t) × (frame_bits (v.memory t i) ≢ 0)
  pub free : All (λ a. (level a ≡ 0) × (a % 2 ^ 12 ≡ 0) × (a ≢ 0)) v.pmm.free_stack
  pub distinct : Distinct v.pmm.free_stack

-- What a frame on top of the stack is when it becomes a table.
pub record Grown (level new : Levels) (v w : Vmm) (table index found : ℕ) : Type 0 where
  pub tree : IsTree new w
  pub kept : (t : ℕ) → level t ≢ 0 → new t ≡ level t
  pub below : new found + 1 ≡ level table
  pub real : found ≢ 0
  pub linked : get_existing_table w.memory table index ≡ found
  pub same : (t i : ℕ) → level t ≢ 0 → (t ≢ table) ⊎ (i ≢ index) → w.memory t i ≡ v.memory t i
  pub plain : is_huge (w.memory table index) ≡ true → w.memory table index ≡ v.memory table index
  pub origin :
      ((w ≡ v) × (get_existing_table v.memory table index ≡ found))
      ⊎ ((i : ℕ) → i < 512 → w.memory found i ≡ 0)
  pub room : length v.pmm.free_stack ≤ length w.pmm.free_stack + 1

All-weaken :
    (level : Levels) (x l : ℕ) (xs : List ℕ)
    → has x xs ≡ false
    → All (λ a. (level a ≡ 0) × (a % 2 ^ 12 ≡ 0) × (a ≢ 0)) xs
    → All (λ a. (update level x l a ≡ 0) × (a % 2 ^ 12 ≡ 0) × (a ≢ 0)) xs
All-weaken level x l [] h a = tt
All-weaken level x l (y ∷ ys) h a = ground (arith, All-weaken level x l ys)

-- The state after a fresh table was made and linked.
abbrev pub grow : Vmm → ℕ → ℕ → ℕ → Pmm → Vmm
grow v table index x pmm = record v {
  pmm = pmm;
  memory = write_entry (clear_table v.memory x) table index (with_flags x 7);
}

get_existing-present :
    (mem : Memory) (table index : ℕ)
    → is_present (mem table index) ≡ true
    → get_existing_table mem table index ≡ frame_bits (mem table index)
unfolding get_existing_table
get_existing-present mem table index h = rw h refl

get_existing-absent :
    (mem : Memory) (table index : ℕ)
    → is_present (mem table index) ≡ false
    → get_existing_table mem table index ≡ 0
unfolding get_existing_table
get_existing-absent mem table index h = rw h refl

-- A present entry is followed.
existing :
    (level : Levels) (v : Vmm) (table index : ℕ)
    → IsTree level v
    → index < 512
    → 2 ≤ level table
    → (level table ≡ 2 → is_huge (v.memory table index) ≡ false)
    → is_present (v.memory table index) ≡ true
    → Grown level level v v table index (frame_bits (v.memory table index))
unfolding get_existing_table
existing level v table index tree b l nh p =
    let d = tree.down table index b l p nh in
    record {
      tree = tree;
      kept = λ t n. refl;
      below = d.0;
      real = d.1;
      linked = rw p refl;
      same = λ t i n o. refl;
      plain = λ h. refl;
      origin = inl (refl, rw p refl);
      room = omega arith;
    }

-- A missing entry gets the frame on top of the stack.
module _ (level : Levels) (v : Vmm) (table index x : ℕ) (xs : List ℕ) (pmm : Pmm)
    (tree : IsTree level v) (b : index < 512) (l : 2 ≤ level table)
    (absent : is_present (v.memory table index) ≡ false) (stack : v.pmm.free_stack ≡ x ∷ xs)
    (rest : pmm.free_stack ≡ xs) where
  fresh : (level x ≡ 0) × (x % 2 ^ 12 ≡ 0) × (x ≢ 0)
  fresh = (subst (λ q. All (λ a. (level a ≡ 0) × (a % 2 ^ 12 ≡ 0) × (a ≢ 0)) q) stack tree.free).0

  entry :
      (is_present (with_flags x 7) ≡ true)
      × (is_huge (with_flags x 7) ≡ false)
      × (frame_bits (with_flags x 7) ≡ x)
  unfolding test_bit
  entry = let w = with_flags_lem x 7 fresh.1 (omega arith) in (w.0, w.1 ∙ refl, w.2)

  abbrev grown : Vmm
  grown = grow v table index x pmm

  abbrev new_level : Levels
  new_level = update level x (level table - 1)

  grow-linked : (grow v table index x pmm).memory table index ≡ with_flags x 7
  grow-linked = ground arith

  grow-same :
      (t i : ℕ)
      → level t ≢ 0
      → (t ≢ table) ⊎ (i ≢ index)
      → (grow v table index x pmm).memory t i ≡ v.memory t i
  grow-same t i n (inl ne) = ground (arith, fresh.0)
  grow-same t i n (inr ne) = ground (arith, fresh.0)

  grow-cleared : (i : ℕ) → i < 512 → (grow v table index x pmm).memory x i ≡ 0
  grow-cleared i h = ground (arith, fresh.0)

  -- Where an entry of the new state comes from.
  grow-down :
      (t i : ℕ)
      → i < 512
      → 2 ≤ new_level t
      → is_present (grown.memory t i) ≡ true
      → (new_level t ≡ 2 → is_huge (grown.memory t i) ≡ false)
      → (new_level (frame_bits (grown.memory t i)) + 1 ≡ new_level t)
        × (frame_bits (grown.memory t i) ≢ 0)
  unfolding test_bit
  grow-down t i bi lt p nh = elim (Bool-cases (x == t)) [
    | inl new ↦
        let e : t ≡ x = ground arith in
        let z : (grow v table index x pmm).memory t i ≡ 0 = rw e (grow-cleared i bi) in
        let q : is_present 0 ≡ true = subst (λ n. is_present n ≡ true) z p in absurd (cc)
    | inr old ↦
        let same_level : new_level t ≡ level t = ground arith in
        let lt2 : 2 ≤ level t = omega (arith, same_level) in
        elim (Bool-cases ((t == table) && (i == index))) [
          | inl here ↦
              let e : t ≡ table = ground arith in
              let f : i ≡ index = ground arith in
              let z : (grow v table index x pmm).memory t i ≡ with_flags x 7 =
                rw (e, f) grow-linked in
              let g : frame_bits ((grow v table index x pmm).memory t i) ≡ x =
                ap (λ (n : ℕ). frame_bits n) z ∙ entry.2 in
              let up : new_level x ≡ level table - 1 = ground arith in
              (
                ap (λ n. new_level n + 1) g ∙ omega (arith, up, same_level, ap level e),
                λ q. fresh.2 (sym g ∙ q),
              )
          | inr there ↦
              let z : (grow v table index x pmm).memory t i ≡ v.memory t i =
                ground (arith, grow-same t i) in
              let d =
                tree.down t i bi lt2 (subst (λ n. is_present n ≡ true) z p)
                  (λ two. subst (λ n. is_huge n ≡ false) z (nh (same_level ∙ two))) in
              let apart : new_level (frame_bits (v.memory t i))
                  ≡ level (frame_bits (v.memory t i)) =
                ground (arith, fresh.0) in
              (
                ap (λ n. new_level (frame_bits n) + 1) z ∙ omega (arith, apart, d.0, same_level),
                λ q. d.1 (ap (λ (n : ℕ). frame_bits n) (sym z) ∙ q),
              )
        ]
  ]

  grow-Grown : Grown level new_level v grown table index x
  grow-Grown =
      let d : Distinct (x ∷ xs) = subst Distinct stack tree.distinct in
      let a =
        subst (λ q. All (λ a. (level a ≡ 0) × (a % 2 ^ 12 ≡ 0) × (a ≢ 0)) q) stack tree.free in
      record {
        tree = record {
          down = grow-down;
          free =
              subst
                (λ q.
                  All (λ a. (update level x (level table - 1) a ≡ 0) × (a % 2 ^ 12 ≡ 0) × (a ≢ 0))
                    q)
                (sym rest) (All-weaken level x (level table - 1) xs d.0 a.1);
          distinct = subst Distinct (sym rest) d.1;
        };
        kept = λ t n. ground (arith, fresh.0);
        below = ground arith;
        real = fresh.2;
        linked = linked;
        same = grow-same;
        plain = λ h. absurd (cc (h, grow-linked, entry.1));
        origin = inr grow-cleared;
        room = omega (arith, ap length stack, ap length rest);
      }
    where
      linked : get_existing_table (grow v table index x pmm).memory table index ≡ x
      linked =
          get_existing-present (grow v table index x pmm).memory table index
            (ap (λ n. is_present n) grow-linked ∙ entry.0)
          ∙ ap (λ (n : ℕ). frame_bits n) grow-linked
          ∙ entry.2

alloc_zeroed_table-cons :
    (v : Vmm) (x : ℕ) (xs : List ℕ)
    → v.pmm.free_stack ≡ x ∷ xs
    → x ≢ 0
    → alloc_zeroed_table v ≡ record {
      table = x;
      vmm = record v { pmm = (alloc_frame v.pmm).state; memory = clear_table v.memory x };
    }
unfolding alloc_zeroed_table
alloc_zeroed_table-cons v x xs e h =
    let a = alloc_frame-cons v.pmm x xs e in
    let nz : (x == 0) ≡ false = ground (arith, h) in rw (a.0, nz) refl

-- A table for an entry that is not a huge page, when no other CPU writes: no frame is
-- free, or the entry leads to a table one level down, the tree is a tree, and no other entry of a
-- table that was there has changed.
pub ensure_next_table_lem :
    (level : Levels) (v : Vmm) (table index : ℕ)
    → IsTree level v
    → index < 512
    → 2 ≤ level table
    → (level table ≡ 2 → is_huge (v.memory table index) ≡ false)
    → let r = ensure_next_table (λ m. m) v table index in
      (v.pmm.free_stack ≡ []) ⊎ ((new : Levels) × Grown level new v r.vmm table index r.table)
unfolding ensure_next_table
ensure_next_table_lem level v table index tree b l nh =
    elim (Bool-cases (is_present (v.memory table index))) [
      | inl y ↦
          let g = existing level v table index tree b l nh y in
          let old = get_existing-present v.memory table index y in
          let ne : (get_existing_table v.memory table index == 0) ≡ false =
            ground (arith, old, g.real) in
          rw (ne, old) (inr (level, g))
      | inr n ↦ missing n v.pmm.free_stack refl
    ]
  where
    missing :
        is_present (v.memory table index) ≡ false
        → (q : List ℕ) → v.pmm.free_stack ≡ q
        → let r = ensure_next_table (λ m. m) v table index in
          (v.pmm.free_stack ≡ []) ⊎ ((new : Levels) × Grown level new v r.vmm table index r.table)
    missing n [] e = inl e
    missing n (x ∷ xs) e =
        let z = get_existing-absent v.memory table index n in
        let a = alloc_frame-cons v.pmm x xs e in
        let f = fresh level v table index x xs (alloc_frame v.pmm).state tree b l n e a.1 in
        let apart : x ≢ table = λ q. omega (arith, f.0, ap level q) in
        let again : get_existing_table (clear_table v.memory x) table index ≡ 0 =
          get_existing-absent (clear_table v.memory x) table index (ground arith) in
        let g = grow-Grown level v table index x xs (alloc_frame v.pmm).state tree b l n e a.1 in
        let nz : (x == 0) ≡ false = ground (arith, f.2) in
        rw (z, alloc_zeroed_table-cons v x xs e f.2, nz, again)
          (inr (update level x (level table - 1), g))
