-- ===== src/Mouse/Pointer.antt =====
-- Where the pointer of src/kernel/mouse.c goes.
use zoho_os_chatbot.Base.{
  ℕ, ◌+◌, ◌-◌, ◌^◌, ◌<◌, ◌≤◌, ◌≡◌, refl, Bool, true, false, not, ◌||◌, ltb, ◌==◌, if◌then◌else◌,
  u32, update, test_bit, List, [], ◌∷◌, ◌%◌, min, arith, Bool-cases, inl, inr,
}
use zoho_os_chatbot.Window.Dirty.{i32_sub}
use zoho_os_chatbot.Mouse.{Mouse, sign_extend, delta, clamp, move, mouse_handler, handle_all}

-- The pointer is where `mouse_handler` lets it go, which is at most one past the last column and the
-- last row of a screen of 1024 by 768 pixels; and a packet is not yet whole.
abbrev pub IsClamped : Mouse → Type 0
IsClamped m = (m.x ≤ 1024) × (m.y ≤ 768) × (m.cycle < 3)

clamp-le : (limit v : ℕ) → limit < 2 ^ 31 → v < 2 ^ 32 → clamp limit v ≤ limit
clamp-le limit v h l = ground arith

move-IsClamped : (m : Mouse) → IsClamped m → IsClamped (move m)
unfolding move
move-IsClamped m (hx, hy, hc) =
    elim (Bool-cases (test_bit (m.bytes 0) 7 || test_bit (m.bytes 0) 6)) [
      | inl e ↦ rw (e, move) (hx, hy, hc)
      | inr e ↦
          rw (e, move)
            (
              clamp-le 1024 (u32 (m.x + delta m 1 4)) (omega arith) (omega arith),
              clamp-le 768 (i32_sub m.y (delta m 2 5)) (omega arith) (omega arith),
              hc,
            )
    ]

handler-IsClamped :
    (m : Mouse) (status value : ℕ) → IsClamped m → IsClamped (mouse_handler m status value)
unfolding mouse_handler
handler-IsClamped m status value (hx, hy, hc) =
    elim (Bool-cases (not (test_bit status 0) || not (test_bit status 5))) [
      | inl e ↦ rw (e, mouse_handler) (hx, hy, hc)
      | inr e ↦ elim (Bool-cases ((m.cycle + 1) % 256 == 3)) [
        | inl f ↦
            rw (e, f, mouse_handler)
              (move-IsClamped (record m { bytes = update m.bytes m.cycle value; cycle = 0 })
                (hx, hy, omega arith))
        | inr f ↦ rw (e, f, mouse_handler) (hx, hy, ground arith)
      ]
    ]

-- Whatever the ports read at any sequence of interrupts, a pointer that begins there stays between 0
-- and 1024 in x and 0 and 768 in y, both included: the last pixels of the screen are 1023 and 767, so
-- that it may leave the screen by one pixel. The bytes of a packet stay within the array of three.
pub handle_all-IsClamped :
    (m : Mouse) (is : List (ℕ × ℕ)) → IsClamped m → IsClamped (handle_all m is)
unfolding handle_all
handle_all-IsClamped m [] h = h
handle_all-IsClamped m (i ∷ is) h =
    handle_all-IsClamped (mouse_handler m i.0 i.1) is (handler-IsClamped m i.0 i.1 h)

-- How far one axis goes: a byte, with or without the sign bit of the packet.
abbrev pub forward : ℕ → ℕ → Bool → ℕ → ℕ
forward limit v sign b =
    if sign
    then (if ltb b 128 then v - (256 - b) else v - (512 - b))
    else (if ltb b 128 then min limit (v + b) else v - (256 - b))

abbrev pub backward : ℕ → ℕ → Bool → ℕ → ℕ
backward limit v sign b =
    if sign
    then (if ltb b 128 then min limit (v + (256 - b)) else min limit (v + (512 - b)))
    else (if ltb b 128 then v - b else min limit (v + (256 - b)))

forward_lem :
    (limit v b : ℕ) (sign : Bool)
    → limit < 2 ^ 16
    → v ≤ limit
    → b < 256
    → clamp limit (u32 (v + (if sign then i32_sub (sign_extend b) 256 else sign_extend b)))
      ≡ forward limit v sign b
forward_lem limit v b true h u l = ground arith
forward_lem limit v b false h u l = ground arith

backward_lem :
    (limit v b : ℕ) (sign : Bool)
    → limit < 2 ^ 16
    → v ≤ limit
    → b < 256
    → clamp limit (i32_sub v (if sign then i32_sub (sign_extend b) 256 else sign_extend b))
      ≡ backward limit v sign b
backward_lem limit v b true h u l = ground arith
backward_lem limit v b false h u l = ground arith

move_lem :
    (m : Mouse)
    → IsClamped m
    → (test_bit (m.bytes 0) 7 || test_bit (m.bytes 0) 6) ≡ false
    → m.bytes 1 < 256
    → m.bytes 2 < 256
    → ((move m).x ≡ forward 1024 m.x (test_bit (m.bytes 0) 4) (m.bytes 1))
      × ((move m).y ≡ backward 768 m.y (test_bit (m.bytes 0) 5) (m.bytes 2))
unfolding move
move_lem m (hx, hy, hc) e l l' =
    rw (e, move)
      (
        forward_lem 1024 m.x (m.bytes 1) (test_bit (m.bytes 0) 4) (omega arith) hx l,
        backward_lem 768 m.y (m.bytes 2) (test_bit (m.bytes 0) 5) (omega arith) hy l',
      )

handler_start :
    (m : Mouse) (status value c : ℕ)
    → test_bit status 0 ≡ true
    → test_bit status 5 ≡ true
    → m.cycle ≡ c
    → c < 2
    → mouse_handler m status value ≡ record m { bytes = update m.bytes c value; cycle = c + 1 }
unfolding mouse_handler
handler_start m status value c s s' e l =
    let t : (not (test_bit status 0) || not (test_bit status 5)) ≡ false = rw (s, s') refl in
    let cycle : (m.cycle + 1) % 256 ≡ c + 1 = omega arith in
    let more : (c + 1 == 3) ≡ false = ground arith in rw (t, cycle, more, e, mouse_handler) refl

handler_end :
    (m : Mouse) (status value : ℕ)
    → test_bit status 0 ≡ true
    → test_bit status 5 ≡ true
    → m.cycle ≡ 2
    → mouse_handler m status value ≡ move (record m { bytes = update m.bytes 2 value; cycle = 0 })
unfolding mouse_handler
handler_end m status value s s' e =
    let t : (not (test_bit status 0) || not (test_bit status 5)) ≡ false = rw (s, s') refl in
    rw (t, e, mouse_handler) refl

-- Three interrupts with the bytes of a packet without overflow, when no packet has begun: each axis
-- goes by its byte read as a signed one, and by 256 more in the negative direction if its sign bit is
-- set, and stops at 0 and at 1024 in x, and at 0
-- and 768 in y.
pub packet_lem :
    (m : Mouse) (status flags b c : ℕ)
    → IsClamped m
    → m.cycle ≡ 0
    → test_bit status 0 ≡ true
    → test_bit status 5 ≡ true
    → (test_bit flags 7 || test_bit flags 6) ≡ false
    → b < 256
    → c < 256
    → let new = handle_all m ((status, flags) ∷ (status, b) ∷ (status, c) ∷ []) in
      (new.x ≡ forward 1024 m.x (test_bit flags 4) b)
      × (new.y ≡ backward 768 m.y (test_bit flags 5) c)
unfolding handle_all
packet_lem m status flags b c on z s s' o l l' =
    let m1 : Mouse = record m { bytes = update m.bytes 0 flags; cycle = 1 } in
    let m2 : Mouse = record m1 { bytes = update m1.bytes 1 b; cycle = 2 } in
    let m3 : Mouse = record m2 { bytes = update m2.bytes 2 c; cycle = 0 } in
    rw
      (
        handler_start m status flags 0 s s' z (omega arith),
        handler_start m1 status b 1 s s' refl (omega arith),
        handler_end m2 status c s s' refl,
      )
      (move_lem m3 (on.0, on.1, omega arith) o l l')
