-- ===== src/Mouse/Tests.antt =====
-- A packet that moves the pointer to the left and up.
use zoho_os_chatbot.Base.{ℕ, ◌≡◌, refl, arith, test_bit, List, [], ◌∷◌}
use zoho_os_chatbot.Mouse.{Mouse, handle_all}
use zoho_os_chatbot.Mouse.Pointer.{IsClamped, handle_all-IsClamped, packet_lem}

abbrev mouse : Mouse
mouse = record { cycle = 0; bytes = λ i. 0; x = 400; y = 300 }

-- The byte 251 with the sign bit is a motion by 5 to the left.
abbrev packet : List (ℕ × ℕ)
packet = (0x21, 0x18) ∷ (0x21, 251) ∷ (0x21, 7) ∷ []

handle_all-IsClamped_example : IsClamped (handle_all mouse packet)
handle_all-IsClamped_example =
    handle_all-IsClamped mouse packet (omega arith, omega arith, omega arith)

-- The pointer goes by 261 to the left.
packet_lem_example : ((handle_all mouse packet).x ≡ 139) × ((handle_all mouse packet).y ≡ 293)
unfolding test_bit
packet_lem_example =
    packet_lem mouse 0x21 0x18 251 7 (omega arith, omega arith, omega arith) refl refl refl refl
      (omega arith) (omega arith)
