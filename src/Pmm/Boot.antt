-- ===== src/Pmm/Boot.antt =====
-- The bitmap that `pmm_init` of src/kernel/pmm.c builds from the boot information.
use zoho_os_chatbot.Base.{
  ◌∙◌, ℕ, zero, suc, ◌+◌, ◌-◌, ◌*◌, ◌/◌, ◌%◌, ◌^◌, ◌≤◌, ◌<◌, ◌≡◌, refl, ap, Bool, true, false, not,
  ◌&&◌, ◌||◌, List, [], ◌∷◌, arith, ◌==◌, leb, ltb, Bool-cases, inl, inr, All, u64, if◌then◌else◌,
  test_bit-ones,
}
use zoho_os_chatbot.Pmm.{
  page_size, max_frames, Bitmap, bitmap_set, bitmap_test, MmapEntry, Tag, mmap, other,
  MultibootInfo, Scan, scan_frame, scan_range, rounds, scan_entries, scan_tags, reserve_range,
  boot_scan, boot_bitmap,
}
use zoho_os_chatbot.Pmm.Bitmap.{
  bitmap_test-set_self, bitmap_test-set_ne, bitmap_test-unset_self, bitmap_test-unset_ne,
}
use zoho_os_chatbot.Pmm.Invariant.{frame_of}

-- The highest end at which `addr += PAGE_SIZE` does not wrap before the test fails.
abbrev pub top : ℕ
top = 2 ^ 64 - page_size

-- The frames that a loop from `addr` to `end` in steps of a page visits.
abbrev pub visits : ℕ → ℕ → ℕ → Bool
visits addr end f = leb (addr / page_size) f && ltb (f * page_size + addr % page_size) end

visits_stop : (addr end f : ℕ) → end ≤ addr → visits addr end f ≡ false
visits_stop addr end f h = ground arith

scan_frame-bits :
    (s : Scan) (addr f : ℕ)
    → f < max_frames
    → bitmap_test (scan_frame s addr).bits f
      ≡ (if addr / page_size == f then false else bitmap_test s.bits f)
unfolding scan_frame
scan_frame-bits s addr f h =
    ground
      (arith, bitmap_test-unset_self s.bits f, bitmap_test-unset_ne s.bits (addr / page_size) f)

scan_range-bits :
    (fuel addr end : ℕ) (s : Scan) (f : ℕ)
    → end ≤ top
    → end ≤ addr + fuel * page_size
    → f < max_frames
    → bitmap_test (scan_range fuel addr end s).bits f
      ≡ (if visits addr end f then false else bitmap_test s.bits f)
unfolding scan_range
scan_range-bits zero addr end s f t e h = rw (visits_stop addr end f (omega arith))
scan_range-bits (suc fuel) addr end s f t e h = ground (
  arith,
  scan_range-bits fuel (u64 (addr + page_size)) end (scan_frame s addr) f t,
  scan_frame-bits s addr f h,
)

reserve_range-bits :
    (fuel addr end : ℕ) (b : Bitmap) (f : ℕ)
    → end ≤ top
    → end ≤ addr + fuel * page_size
    → bitmap_test (reserve_range fuel addr end b) f ≡ (visits addr end f || bitmap_test b f)
unfolding reserve_range
reserve_range-bits zero addr end b f t e = rw (visits_stop addr end f (omega arith))
reserve_range-bits (suc fuel) addr end b f t e = ground (
  arith,
  reserve_range-bits fuel (u64 (addr + page_size)) end (bitmap_set b (addr / page_size)) f t,
  bitmap_test-set_self b f,
  bitmap_test-set_ne b (addr / page_size) f,
)

-- Usable memory, as the loops read it.
abbrev pub usable_entry : MmapEntry → ℕ → Bool
usable_entry e f = (e.type == 1) && visits e.addr (u64 (e.addr + e.len)) f

abbrev pub usable_entries : List MmapEntry → ℕ → Bool
usable_entries [] f = false
usable_entries (e ∷ es) f = usable_entry e f || usable_entries es f

abbrev pub usable : List Tag → ℕ → Bool
usable [] f = false
usable (mmap es ∷ ts) f = usable_entries es f || usable ts f
usable (other ∷ ts) f = usable ts f

-- No entry reaches into the last page of the address space.
abbrev pub Fits : List Tag → Type 0
Fits [] = Unit
Fits (mmap es ∷ ts) = All (λ e. u64 (e.addr + e.len) ≤ top) es × Fits ts
Fits (other ∷ ts) = Fits ts

-- What a part of the scan has done to the frame `f`, if it visited the frame.
pub record Scanned (f : ℕ) (seen : Bool) (s t : Scan) : Type 0 where
  pub bits : bitmap_test t.bits f ≡ (if seen then false else bitmap_test s.bits f)
  pub grows : s.max_addr ≤ t.max_addr
  pub within : seen ≡ true → f * page_size + page_size ≤ t.max_addr

scan_range-max :
    (fuel addr end : ℕ) (s : Scan) (f : ℕ)
    → end ≤ top
    → end ≤ addr + fuel * page_size
    → f < max_frames
    → (s.max_addr ≤ (scan_range fuel addr end s).max_addr)
      × (visits addr end f ≡ true
          → f * page_size + page_size ≤ (scan_range fuel addr end s).max_addr)
unfolding scan_range scan_frame
scan_range-max zero addr end s f t e h = (omega arith, λ v. ground arith)
scan_range-max (suc fuel) addr end s f t e h =
    let ih = scan_range-max fuel (u64 (addr + page_size)) end (scan_frame s addr) f t in
    (ground (arith, ih), λ v. ground (arith, ih))

scan_range-Scanned :
    (addr end : ℕ) (s : Scan) (f : ℕ)
    → end ≤ top
    → f < max_frames
    → Scanned f (visits addr end f) s (scan_range (rounds addr end) addr end s)
scan_range-Scanned addr end s f t h =
    let m = scan_range-max (rounds addr end) addr end s f t (omega arith) h in
    record {
      bits = scan_range-bits (rounds addr end) addr end s f t (omega arith) h;
      grows = m.0;
      within = m.1;
    }

Scanned-trans :
    {f : ℕ} {p q : Bool} {s t u : Scan} → Scanned f p s t → Scanned f q t u → Scanned f (p || q) s u
Scanned-trans a b = ground arith

scan_entry-Scanned :
    (f : ℕ) (e : MmapEntry) (s : Scan)
    → f < max_frames
    → u64 (e.addr + e.len) ≤ top
    → let end = u64 (e.addr + e.len) in
      Scanned f
        (usable_entry e f)
        s
        (if e.type == 1 then scan_range (rounds e.addr end) e.addr end s else s)
scan_entry-Scanned f e s h t =
    let end = u64 (e.addr + e.len) in
    let r = scan_range-Scanned e.addr end s f t h in
    elim (Bool-cases (e.type == 1)) [
      | inl y ↦ rw y r
      | inr n ↦ rw n (record { bits = refl; grows = omega arith; within = λ w. cc })
    ]

scan_entries-Scanned :
    (f : ℕ) (es : List MmapEntry) (s : Scan)
    → f < max_frames
    → All (λ e. u64 (e.addr + e.len) ≤ top) es
    → Scanned f (usable_entries es f) s (scan_entries es s)
unfolding scan_entries
scan_entries-Scanned f [] s h t = record { bits = refl; grows = omega arith; within = λ w. cc }
scan_entries-Scanned f (e ∷ es) s h t =
    Scanned-trans (scan_entry-Scanned f e s h t.0) (scan_entries-Scanned f es _ h t.1)

pub scan_tags-Scanned :
    (f : ℕ) (ts : List Tag) (s : Scan)
    → f < max_frames
    → Fits ts
    → Scanned f (usable ts f) s (scan_tags ts s)
unfolding scan_tags
scan_tags-Scanned f [] s h t = record { bits = refl; grows = omega arith; within = λ w. cc }
scan_tags-Scanned f (mmap es ∷ ts) s h t =
    Scanned-trans (scan_entries-Scanned f es s h t.0) (scan_tags-Scanned f ts _ h t.1)
scan_tags-Scanned f (other ∷ ts) s h t = scan_tags-Scanned f ts s h t

-- The frames that `pmm_init` leaves free.
abbrev pub free_at_boot : MultibootInfo → ℕ → ℕ → Bool
free_at_boot mb k_end f =
    usable mb.tags f
    && not (visits 0 k_end f)
    && not (visits mb.address (u64 (mb.address + mb.total_size)) f)

all_reserved : (f : ℕ) → bitmap_test (λ _. 0xFFFFFFFF) f ≡ true
unfolding bitmap_test
all_reserved f = test_bit-ones (f % 32) (omega arith)

boot_reserved :
    (u k m : Bool) → not (m || (k || (if u then false else true))) ≡ (u && not k && not m)
boot_reserved u k m = ground arith

pub boot_bitmap-free :
    (mb : MultibootInfo) (k_end f : ℕ)
    → Fits mb.tags
    → k_end ≤ top
    → u64 (mb.address + mb.total_size) ≤ top
    → f < max_frames
    → not (bitmap_test (boot_bitmap mb k_end) f) ≡ free_at_boot mb k_end f
unfolding boot_bitmap boot_scan
boot_bitmap-free mb k_end f fits k m h =
    let mbi_end = u64 (mb.address + mb.total_size) in
    let start : Scan = record { bits = λ _. 0xFFFFFFFF; max_addr = 0 } in
    let b = scan_tags mb.tags start in
    let kernel = reserve_range (rounds 0 k_end) 0 k_end b.bits in
    ap not (
      reserve_range-bits (rounds mb.address mbi_end) mb.address mbi_end kernel f m (omega arith)
      ∙ ap (λ x. visits mb.address mbi_end f || x)
          (reserve_range-bits (rounds 0 k_end) 0 k_end b.bits f k (omega arith)
            ∙ ap (λ x. visits 0 k_end f || x)
                ((scan_tags-Scanned f mb.tags start h fits).bits
                  ∙ ap (λ x. if usable mb.tags f then false else x) (all_reserved f))))
    ∙ boot_reserved (usable mb.tags f) (visits 0 k_end f) (visits mb.address mbi_end f)

-- If the boot information ends in a page at an offset not above the one it starts at, the loop that
-- reserves it leaves out its last page, though the information reaches into that page.
pub mbi_tail_unreserved :
    (fuel addr end : ℕ) (b : Bitmap)
    → addr < end
    → end ≤ top
    → end ≤ addr + fuel * page_size
    → 0 < end % page_size
    → end % page_size ≤ addr % page_size
    → (frame_of end * page_size < end)
      × (bitmap_test (reserve_range fuel addr end b) (frame_of end) ≡ bitmap_test b (frame_of end))
mbi_tail_unreserved fuel addr end b lt t e pos le =
    let missed : visits addr end (frame_of end) ≡ false = ground arith in
    (
      omega arith,
      reserve_range-bits fuel addr end b (frame_of end) t e
          ∙ ap (λ x. x || bitmap_test b (frame_of end)) missed,
    )
