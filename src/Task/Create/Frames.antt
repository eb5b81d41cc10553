-- ===== src/Task/Create/Frames.antt =====
-- The frame that a new task of src/kernel/task.c starts from.
use zoho_os_chatbot.Base.{
  ℕ, zero, suc, ◌+◌, ◌-◌, ◌*◌, ◌<◌, ◌≤◌, ◌≡◌, refl, ◌∙◌, ◌⊎◌, inl, inr, arith,
}
use zoho_os_chatbot.Task.Create.{Stack, push, push_zeros, push_frame}

-- The words of an interrupt frame below `kernel_rsp`, as the code's return path pops them: fifteen
-- registers and two words that are 0, the entry point, the code segment, the flags, the stack and its
-- segment. No byte outside these 176 is touched.
pub record Framed (old new : ℕ → ℕ) (rsp kernel_rsp seg sp code start : ℕ) : Type 0 where
  pub depth : rsp + 176 ≡ kernel_rsp
  pub zeros : (i : ℕ) → i < 17 → new (rsp + i * 8) ≡ 0
  pub entry : new (rsp + 136) ≡ start
  pub cs : new (rsp + 144) ≡ code
  pub flags : new (rsp + 152) ≡ 0x202
  pub user : new (rsp + 160) ≡ sp
  pub ss : new (rsp + 168) ≡ seg
  pub others : (a : ℕ) → (a < rsp) ⊎ (kernel_rsp ≤ a) → new a ≡ old a

-- What pushing `n` zeros does.
record Zeroed (n : ℕ) (s t : Stack) : Type 0 where
  top : t.top + n * 8 ≡ s.top
  zeros : (i : ℕ) → i < n → t.memory (t.top + i * 8) ≡ 0
  others : (a : ℕ) → (a < t.top) ⊎ (s.top ≤ a) → t.memory a ≡ s.memory a

Zeroed-step : (n : ℕ) (s t : Stack) → 8 ≤ s.top → Zeroed n (push s 0) t → Zeroed (suc n) s t
Zeroed-step n s t h z = record {
  top = omega (arith, z.top);
  zeros = λ i lt. zero_at i (split i lt);
  others = others;
}
  where
    split : (i : ℕ) → i < suc n → (i < n) ⊎ (i ≡ n)
    split i lt = omega arith

    zero_at : (i : ℕ) → (i < n) ⊎ (i ≡ n) → t.memory (t.top + i * 8) ≡ 0
    zero_at i (inl low) = z.zeros i low
    zero_at i (inr high) =
        let e : t.top + i * 8 ≡ s.top - 8 = omega (arith, z.top) in
        rw e (z.others (s.top - 8) (inr (omega arith)) ∙ ground arith)

    others : (a : ℕ) → (a < t.top) ⊎ (s.top ≤ a) → t.memory a ≡ s.memory a
    others a (inl low) = z.others a (inl low) ∙ ground (arith, z.top)
    others a (inr high) = z.others a (inr (omega arith)) ∙ ground arith

push_zeros-Zeroed : (n : ℕ) (s : Stack) → n * 8 ≤ s.top → Zeroed n s (push_zeros n s)
unfolding push_zeros
push_zeros-Zeroed zero s h = record {
  top = omega arith;
  zeros = λ i lt. absurd (omega arith);
  others = λ a o. refl;
}
push_zeros-Zeroed (suc n) s h =
    Zeroed-step n s (push_zeros n (push s 0)) (omega arith)
      (push_zeros-Zeroed n (push s 0) (omega arith))

pub push_frame-Framed :
    (s : Stack) (seg sp code start : ℕ)
    → 176 ≤ s.top
    → let t = push_frame s seg sp code start in
      Framed s.memory t.memory t.top s.top seg sp code start
unfolding push_frame
push_frame-Framed s seg sp code start h = record {
  depth = omega (arith, z.top);
  zeros = λ i lt. zero_at i (split i lt);
  entry = above 136 (omega arith) ∙ ground (arith, z.top);
  cs = above 144 (omega arith) ∙ ground (arith, z.top);
  flags = above 152 (omega arith) ∙ ground (arith, z.top);
  user = above 160 (omega arith) ∙ ground (arith, z.top);
  ss = above 168 (omega arith) ∙ ground (arith, z.top);
  others = others;
}
  where
    base : Stack
    base = push (push (push (push (push (push (push s seg) sp) 0x202) code) start) 0) 0

    t : Stack
    t = push_zeros 15 base

    z : Zeroed 15 base t
    z = push_zeros-Zeroed 15 base (omega arith)

    above : (d : ℕ) → 120 ≤ d → t.memory (t.top + d) ≡ base.memory (t.top + d)
    above d le = z.others (t.top + d) (inr (omega (arith, z.top)))

    split : (i : ℕ) → i < 17 → (i < 15) ⊎ (i ≡ 15) ⊎ (i ≡ 16)
    split i lt = omega arith

    zero_at : (i : ℕ) → (i < 15) ⊎ (i ≡ 15) ⊎ (i ≡ 16) → t.memory (t.top + i * 8) ≡ 0
    zero_at i (inl low) = z.zeros i low
    zero_at i (inr (inl e)) = rw e (above 120 (omega arith) ∙ ground (arith, z.top))
    zero_at i (inr (inr e)) = rw e (above 128 (omega arith) ∙ ground (arith, z.top))

    others : (a : ℕ) → (a < t.top) ⊎ (s.top ≤ a) → t.memory a ≡ s.memory a
    others a (inl low) = z.others a (inl low) ∙ ground (arith, z.top)
    others a (inr high) = z.others a (inr (omega arith)) ∙ ground arith
