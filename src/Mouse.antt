-- ===== src/Mouse.antt =====
-- The mouse of src/kernel/mouse.c: the bytes of its packets, and the position of the pointer. Signed
-- 32-bit numbers are residues modulo 2 ^ 32.
mod Pointer
mod Tests
use zoho_os_chatbot.Base.{
  ℕ, ◌+◌, ◌-◌, ◌^◌, not, ◌||◌, ltb, ◌==◌, if◌then◌else◌, u32, update, test_bit, List, [], ◌∷◌, ◌%◌,
}
use zoho_os_chatbot.Window.Dirty.{i32_lt, i32_sub}

-- `mouse_cycle`, `mouse_byte`, `mouse_x` and `mouse_y`.
pub record Mouse : Type 0 where
  pub cycle : ℕ
  pub bytes : ℕ → ℕ
  pub x : ℕ
  pub y : ℕ

-- An `int8_t` read as an `int32_t`.
abbrev pub sign_extend : ℕ → ℕ
sign_extend b = if ltb b 128 then b else b + (2 ^ 32 - 256)

abbrev pub delta : Mouse → ℕ → ℕ → ℕ
delta m i sign =
    let d = sign_extend (m.bytes i) in if test_bit (m.bytes 0) sign then i32_sub d 256 else d

abbrev pub clamp : ℕ → ℕ → ℕ
clamp limit v = let w = if i32_lt v 0 then 0 else v in if i32_lt limit w then limit else w

-- The part of `mouse_handler` behind a whole packet.
unfoldable pub move : Mouse → Mouse
move m = if test_bit (m.bytes 0) 7 || test_bit (m.bytes 0) 6 then m else record m {
  x = clamp 1024 (u32 (m.x + delta m 1 4));
  y = clamp 768 (i32_sub m.y (delta m 2 5));
}

-- `mouse_handler`, with what the two ports read.
unfoldable pub mouse_handler : Mouse → ℕ → ℕ → Mouse
mouse_handler m status value =
    let bytes = update m.bytes m.cycle value in
    let cycle = (m.cycle + 1) % 256 in
    if not (test_bit status 0) || not (test_bit status 5)
    then m
    else if cycle == 3
    then move (record m { bytes = bytes; cycle = 0 })
    else record m { bytes = bytes; cycle = cycle }

-- A sequence of interrupts.
unfoldable pub handle_all : Mouse → List (ℕ × ℕ) → Mouse
handle_all m [] = m
handle_all m (i ∷ is) = handle_all (mouse_handler m i.0 i.1) is
