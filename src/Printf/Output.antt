-- ===== src/Printf/Output.antt =====
-- `vsnprintf` of src/kernel/printf.c against a description of what a format stands for.
use zoho_os_chatbot.Base.{
  ℕ, zero, suc, ◌+◌, ◌<◌, ◌≤◌, ◌≡◌, ◌≢◌, sym, ap, ◌∙◌, List, [], ◌∷◌, ◌++◌, append-nil,
  append_assoc, arith, ltb, ◌==◌, true, false, length, take, Bool-cases, inl, inr, length-append,
  take-append, take-short,
}
use zoho_os_chatbot.Printf.{Chars, room, put_loop}
use zoho_os_chatbot.Printf.Number.{string_at}

ltb-next : (n m : ℕ) {k : ℕ} → ltb n m ≡ true → k ≡ n + 1 → k ≤ m
ltb-next n m h e = ground arith

ltb-stop : (n m : ℕ) → ltb n m ≡ false → n ≤ m → n ≡ m
ltb-stop n m h u = ground arith

pub put_loop_lem :
    (fuel size m g : ℕ) (t : Chars) (out : List ℕ)
    → m < g
    → ((k : ℕ) → k < m → t k ≢ 0)
    → t m ≡ 0
    → length out ≤ room size
    → room size ≤ length out + fuel
    → put_loop fuel size t out ≡ take (room size) (out ++ string_at g t)
unfolding put_loop string_at
put_loop_lem fuel size m zero t out l d z u e = absurd (omega arith)
put_loop_lem zero size m (suc g) t out l d z u e = sym (take-append (room size) out _ (omega arith))
put_loop_lem (suc fuel) size zero (suc g) t out l d z u e =
    rw (z, put_loop, string_at)
      (sym (ap (take (room size)) (append-nil out) ∙ take-short (room size) out u))
put_loop_lem (suc fuel) size (suc m) (suc g) t out l d z u e =
    let some_char : (t 0 == 0) ≡ false = ground (arith, d 0 (omega arith)) in
    let one : length (out ++ (t 0 ∷ [])) ≡ length out + 1 = length-append out (t 0 ∷ []) in
    elim (Bool-cases (ltb (length out) (room size))) [
      | inl q ↦
          rw (some_char, put_loop, string_at, q)
            (put_loop_lem fuel size m g (λ k. t (suc k)) (out ++ (t 0 ∷ [])) (omega arith)
                (λ k h. d (suc k) (omega arith)) z (ltb-next _ _ q one) (omega (arith, one))
              ∙ ap (take (room size)) (append_assoc out (t 0 ∷ []) (string_at g (λ k. t (suc k)))))
      | inr q ↦
          rw (some_char, put_loop, string_at, q)
            (sym (take-append (room size) out _ (ltb-stop _ _ q u)))
    ]
