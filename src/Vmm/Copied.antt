-- ===== src/Vmm/Copied.antt =====
-- What the innermost loop of vmm_clone_address_space in src/kernel/vmm.c leaves in the two page tables
-- and in the reference counts.
use zoho_os_chatbot.Base.{
  ℕ, zero, suc, ◌+◌, ◌/◌, ◌%◌, ◌^◌, ◌<◌, ◌≤◌, ◌≡◌, ◌≢◌, refl, sym, ap₂, ◌∙◌, Bool, true, false,
  ◌&&◌, ◌||◌, arith, ◌==◌, if◌then◌else◌, ltb, leb, inl, inr, Bool-cases,
}
use mathlib.Core.Path.{subst}
use zoho_os_chatbot.Pmm.{page_size, max_frames, ref_inc}
use zoho_os_chatbot.Vmm.{Memory, is_present, frame_bits, Vmm}
use zoho_os_chatbot.Vmm.Sharing.{is_writable, shared_entry, share_entry, share_page, share_pages}
use zoho_os_chatbot.Vmm.Shared.{IsShared, shared, shared-IsShared, with_flags_self}

abbrev within : ℕ → ℕ → ℕ → Bool
within l n i = leb l i && ltb i (l + n)

-- The entry of a table after the rounds from `l` on.
abbrev after : Memory → ℕ → ℕ → ℕ → ℕ → ℕ → ℕ → ℕ
after mem src dst l n t i =
    if within l n i && is_present (mem src i) && ((t == src) || (t == dst))
    then shared (mem src i)
    else mem t i

share_entry-memory :
    (v : Vmm) (src dst l phys t i : ℕ)
    → (share_entry v src dst l phys).memory t i ≡ (
        if (i == l) && ((t == dst) || ((t == src) && is_writable (v.memory src l % 2 ^ 12)))
        then shared_entry phys (v.memory src l % 2 ^ 12)
        else v.memory t i)
unfolding share_entry
share_entry-memory v src dst l phys t i =
    elim (Bool-cases (is_writable (v.memory src l % 2 ^ 12))) [
      | inl y ↦ rw y (ground arith)
      | inr n ↦ rw n (ground arith)
    ]

shared_self : (e : ℕ) → is_present e ≡ true → is_writable (e % 2 ^ 12) ≡ false → shared e ≡ e
shared_self e p n = rw n (with_flags_self e p)

choose :
    (w s d : Bool) (entry old : ℕ)
    → (w ≡ false → s ≡ true → old ≡ entry)
    → (if d || (s && w) then entry else old) ≡ (if s || d then entry else old)
choose true true true entry old h = refl
choose true true false entry old h = refl
choose true false d entry old h = ground arith
choose false true true entry old h = refl
choose false true false entry old h = h refl refl
choose false false d entry old h = ground arith

-- For a present entry, both tables have the shared one.
shared_here :
    (v : Vmm) (src dst l t i : ℕ)
    → is_present (v.memory src l) ≡ true
    → i ≡ l
    → (share_entry v src dst l (frame_bits (v.memory src l))).memory t i
      ≡ (if (t == src) || (t == dst) then shared (v.memory src l) else v.memory t i)
shared_here v src dst l t i p h =
    let e = v.memory src l in
    let on : (i == l) ≡ true = ground arith in
    share_entry-memory v src dst l (frame_bits e) t i
    ∙ rw on (
        choose (is_writable (e % 2 ^ 12)) (t == src) (t == dst) (shared e) (v.memory t i) (λ n s.
          let a : t ≡ src = ground arith in
          ap₂ (λ x y. v.memory x y) a h ∙ sym (shared_self e p n)))

share_page-memory :
    (v : Vmm) (src dst l t i : ℕ)
    → (share_page v src dst l).memory t i ≡ after v.memory src dst l 1 t i
unfolding share_page
share_page-memory v src dst l t i =
    let e = v.memory src l in
    let q = share_entry-memory v src dst l (frame_bits e) t i in
    let r = shared_here v src dst l t i in
    elim (Bool-cases (is_present e))
      as (λ _. (share_page v src dst l).memory t i ≡ after v.memory src dst l 1 t i) [
        | inr absent ↦
            rw absent
              (elim (Bool-cases (i == l)) as (λ _. v.memory t i ≡ after v.memory src dst l 1 t i) [
                | inl y ↦
                    let o : i ≡ l = ground arith in
                    let a : is_present (v.memory src i) ≡ false = rw o absent in
                    let w : within l 1 i ≡ true = ground arith in rw (w, a) refl
                | inr n ↦ let w : within l 1 i ≡ false = ground arith in rw w refl
              ])
        | inl present ↦
            rw present
              (elim (Bool-cases (i == l))
                as (λ _.
                  (share_entry v src dst l (frame_bits e)).memory t i
                  ≡ after v.memory src dst l 1 t i) [
                    | inl y ↦
                        let o : i ≡ l = ground arith in
                        let w : within l 1 i ≡ true = ground arith in
                        let a : is_present (v.memory src i) ≡ true = rw o present in
                        r present o ∙ rw (w, a, o) refl
                    | inr n ↦ let w : within l 1 i ≡ false = ground arith in q ∙ rw (n, w) refl
                  ])
      ]

-- All rounds.
pub share_pages-memory :
    (n : ℕ) (v : Vmm) (src dst l t i : ℕ)
    → (share_pages n v src dst l).memory t i ≡ after v.memory src dst l n t i
unfolding share_pages
share_pages-memory zero v src dst l t i = let w : within l 0 i ≡ false = ground arith in rw w refl
share_pages-memory (suc n) v src dst l t i =
    let u = share_page v src dst l in
    let one = share_page-memory v src dst l in
    share_pages-memory n u src dst (suc l) t i
    ∙ elim (Bool-cases (within (suc l) n i))
        as (λ _. after u.memory src dst (suc l) n t i ≡ after v.memory src dst l (suc n) t i) [
          | inl y ↦
              let w : within l (suc n) i ≡ true = ground arith in
              let past : within l 1 i ≡ false = ground arith in
              let a : u.memory src i ≡ v.memory src i = one src i ∙ rw past refl in
              let b : u.memory t i ≡ v.memory t i = one t i ∙ rw past refl in rw (y, w, a, b) refl
          | inr o ↦ rw o (
              one t i
              ∙ elim (Bool-cases (within l 1 i))
                  as (λ _. after v.memory src dst l 1 t i ≡ after v.memory src dst l (suc n) t i) [
                    | inl y ↦ let w : within l (suc n) i ≡ true = ground arith in rw (y, w) refl
                    | inr z ↦ let w : within l (suc n) i ≡ false = ground arith in rw (z, w) refl
                  ])
        ]

-- How many of the `n` entries from `l` on are present and lead to the frame numbered `f`.
pub users : Memory → ℕ → ℕ → ℕ → ℕ → ℕ
users mem src f zero l = 0
users mem src f (suc n) l =
    (if is_present (mem src l) && (frame_bits (mem src l) / page_size == f) then 1 else 0)
    + users mem src f n (suc l)

users-cong :
    (m w : Memory) (src f n l : ℕ)
    → ((i : ℕ) → l ≤ i → m src i ≡ w src i)
    → users m src f n l ≡ users w src f n l
unfolding users
users-cong m w src f zero l h = refl
users-cong m w src f (suc n) l h =
    rw (h l (omega arith), users-cong m w src f n (suc l) (λ i b. h i (omega arith))) refl

-- An entry that leads to a frame is among its users.
pub users-has :
    (mem : Memory) (src n a l : ℕ)
    → a ≤ l
    → l < a + n
    → is_present (mem src l) ≡ true
    → 1 ≤ users mem src (frame_bits (mem src l) / page_size) n a
unfolding users
users-has mem src zero a l h b p = absurd (omega arith)
users-has mem src (suc n) a l h b p = elim (Bool-cases (a == l)) [
  | inl y ↦
      let e : a ≡ l = ground arith in
      let self : (frame_bits (mem src l) / page_size == frame_bits (mem src l) / page_size) ≡ true =
        ground arith in
      rw (e, p, self) (omega arith)
  | inr n2 ↦
      let r = users-has mem src n (suc a) l (ground arith) (omega arith) p in omega (arith, r)
]

share_page-ref_counts :
    (v : Vmm) (src dst l f : ℕ)
    → f < max_frames
    → v.pmm.ref_counts f + 1 < 2 ^ 32
    → (share_page v src dst l).pmm.ref_counts f ≡ v.pmm.ref_counts f + users v.memory src f 1 l
unfolding share_page share_entry ref_inc users
share_page-ref_counts v src dst l f b h =
    elim (Bool-cases (is_present (v.memory src l)))
      as (λ _.
        (share_page v src dst l).pmm.ref_counts f ≡ v.pmm.ref_counts f + users v.memory src f 1 l) [
          | inl y ↦ rw y (ground arith)
          | inr n ↦ rw n (omega arith)
        ]

users-le : (mem : Memory) (src f n l : ℕ) → users mem src f n l ≤ n
unfolding users
users-le mem src f zero l = omega arith
users-le mem src f (suc n) l = let r = users-le mem src f n (suc l) in ground (arith, r)

users-split :
    (mem : Memory) (src f n l : ℕ)
    → users mem src f (suc n) l ≡ users mem src f 1 l + users mem src f n (suc l)
unfolding users
users-split mem src f n l = omega arith

share_pages-ref_counts :
    (n : ℕ) (v : Vmm) (src dst l f : ℕ)
    → f < max_frames
    → v.pmm.ref_counts f + n < 2 ^ 32
    → (share_pages n v src dst l).pmm.ref_counts f ≡ v.pmm.ref_counts f + users v.memory src f n l
unfolding share_pages
share_pages-ref_counts zero v src dst l f b h =
    let z : users v.memory src f 0 l ≤ 0 = users-le v.memory src f 0 l in omega (arith, z)
share_pages-ref_counts (suc n) v src dst l f b h =
    let u = share_page v src dst l in
    let one = share_page-ref_counts v src dst l f b (omega arith) in
    let le = users-le v.memory src f 1 l in
    let more = share_pages-ref_counts n u src dst (suc l) f b (omega (arith, one, le)) in
    let same = users-cong u.memory v.memory src f n (suc l) (λ i g.
      let past : within l 1 i ≡ false = ground arith in
      share_page-memory v src dst l src i ∙ rw past refl) in
    omega (arith, more, one, same, users-split v.memory src f n l)

share_pages-free_stack :
    (n : ℕ) (v : Vmm) (src dst l : ℕ)
    → (share_pages n v src dst l).pmm.free_stack ≡ v.pmm.free_stack
unfolding share_pages share_page share_entry ref_inc
share_pages-free_stack zero v src dst l = refl
share_pages-free_stack (suc n) v src dst l =
    share_pages-free_stack n (share_page v src dst l) src dst (suc l) ∙ ground arith

-- The copy of a page table into another one: every present page of the source is in both tables, with
-- its frame, and with flags that are the same but that none of the two may write, and a page that
-- could be written is noted as shared. What is not present stays as it was in both, and so do all
-- other tables and the free frames. The reference count of a frame grows by the number of entries that lead to it, if it
-- is 512 away from its largest value.
pub share_pages_lem :
    (v : Vmm) (src dst : ℕ)
    → src ≢ dst
    → let w = share_pages 512 v src dst 0 in
      ((l : ℕ)
        → l < 512
        → is_present (v.memory src l) ≡ true
        → IsShared (v.memory src l) (w.memory src l) × (w.memory dst l ≡ w.memory src l))
      × ((l : ℕ)
          → l < 512
          → is_present (v.memory src l) ≡ false
          → (w.memory src l ≡ v.memory src l) × (w.memory dst l ≡ v.memory dst l))
      × ((t i : ℕ) → t ≢ src → t ≢ dst → w.memory t i ≡ v.memory t i)
      × ((f : ℕ)
          → f < max_frames
          → v.pmm.ref_counts f + 512 < 2 ^ 32
          → w.pmm.ref_counts f ≡ v.pmm.ref_counts f + users v.memory src f 512 0)
      × (w.pmm.free_stack ≡ v.pmm.free_stack)
share_pages_lem v src dst apart = (
  λ l h p.
      let w : within 0 512 l ≡ true = ground arith in
      let s = share_pages-memory 512 v src dst 0 src l in
      let d = share_pages-memory 512 v src dst 0 dst l in
      let a : (src == src) ≡ true = ground arith in
      let b : (dst == dst) ≡ true = ground arith in
      let c : (dst == src) ≡ false = ground (arith, apart) in
      let s2 = s ∙ rw (w, p, a) refl in
      let d2 = d ∙ rw (w, p, c, b) refl in
      (
        subst (λ n. IsShared (v.memory src l) n) (sym s2) (shared-IsShared (v.memory src l) p),
        d2 ∙ sym s2,
      ),
  λ l h p. (
    share_pages-memory 512 v src dst 0 src l ∙ ground (arith, p),
    share_pages-memory 512 v src dst 0 dst l ∙ ground (arith, p),
  ),
  λ t i s d. share_pages-memory 512 v src dst 0 t i ∙ ground (arith, s, d),
  λ f b h. share_pages-ref_counts 512 v src dst 0 f b h,
  share_pages-free_stack 512 v src dst 0,
)
