-- ===== src/Net/Receive/Overread.antt =====
-- The length that `net_handle_ipv4` in src/kernel/net.c trusts.
use zoho_os_chatbot.Base.{
  ℕ, ◌+◌, ◌≤◌, ◌≡◌, refl, false, true, arith, ltb, ge→ltb, ◌==◌, zero, suc, ◌<◌, ap, ◌∙◌, List, [],
  ◌∷◌, ◌++◌, length, ◌%◌, ◌*◌, ◌-◌, ◌^◌, u16,
}
use zoho_os_chatbot.Net.Wire.{
  slice, Ip4, Bytes, Mac, ip_eq, ip_at, ntohs, load16, bytes_of, net_checksum,
}
use zoho_os_chatbot.Net.{Net, ethertype_ipv4, eth_frame, net_send_eth, ip_packet, net_send_ipv4}
use zoho_os_chatbot.Net.Receive.Delivery.{bytes_of-drop, take-whole}
use zoho_os_chatbot.Net.Receive.{from, icmp_reply, net_handle_icmp, net_handle_ipv4}

-- What the handler sends: a reply whose length is the one that the packet claims.
echo_reply :
    (n : Net) (src_mac : Mac) (d : Bytes) (len : ℕ)
    → 20 ≤ len
    → ip_eq (ip_at d 16) n.my_ip ≡ true
    → d 0 ≡ 0x45
    → d 9 ≡ 1
    → d 20 ≡ 8
    → 28 ≤ ntohs (load16 d 2)
    → let size = ntohs (load16 d 2) - 20 in
      let sum = net_checksum (bytes_of (icmp_reply (from d 20) size 0)) size in
      net_handle_ipv4 n src_mac d len
      ≡ net_send_ipv4 n (ip_at d 12) src_mac 1 (icmp_reply (from d 20) size sum)
unfolding net_handle_ipv4 net_handle_icmp
echo_reply n src_mac d len l mine v p t b =
    let size = ntohs (load16 d 2) - 20 in
    let hl : d 0 % 16 * 4 ≡ 20 = omega arith in
    let pl : u16 (ntohs (load16 d 2) + 2 ^ 16 - 20) ≡ size = omega arith in
    let c1 : ltb len 20 ≡ false = ge→ltb len 20 l in
    let c2 : ltb size 8 ≡ false = ge→ltb size 8 (omega arith) in
    let p1 : (d 9 == 1) ≡ true = rw p refl in
    let t0 : from d 20 0 ≡ 8 = t in
    let p2 : (from d 20 0 == 8) ≡ true = rw t0 refl in rw (hl, pl, c1, mine, p1, c2, p2) refl

length-slice : (d : Bytes) (i m : ℕ) → length (slice d i m) ≡ m
unfolding slice
length-slice d i zero = refl
length-slice d i (suc m) = ap suc (length-slice d (suc i) m)

bytes_of-slice : (d : Bytes) (i m j : ℕ) → j < m → bytes_of (slice d i m) j ≡ d (i + j)
unfolding slice
bytes_of-slice d i zero j l = absurd (omega arith)
bytes_of-slice d i (suc m) zero l = ap d (omega arith)
bytes_of-slice d i (suc m) (suc j) l =
    bytes_of-slice d (suc i) m j (omega arith) ∙ ap d (omega arith)

-- The frame of the reply, whose message is of `size` bytes.
abbrev reply_frame : Net → Mac → Bytes → ℕ → ℕ → List ℕ
reply_frame n src_mac d size sum =
    eth_frame src_mac n.my_mac ethertype_ipv4
      (ip_packet n.my_ip (ip_at d 12) 1 (icmp_reply (from d 20) size sum))

length-reply_frame :
    (n : Net) (src_mac : Mac) (d : Bytes) (size sum : ℕ)
    → 4 ≤ size
    → length (reply_frame n src_mac d size sum) ≡ size + 34
length-reply_frame n src_mac d size sum l = omega (arith, length-slice (from d 20) 4 (size - 4))

reply_frame-byte :
    (n : Net) (src_mac : Mac) (d : Bytes) (size sum j : ℕ)
    → 24 ≤ j
    → j < size + 20
    → bytes_of (reply_frame n src_mac d size sum) (14 + j) ≡ d j
reply_frame-byte n src_mac d size sum j lo hi =
    let split : 14 + j ≡ 38 + (j - 24) = omega arith in
    let place : 20 + (4 + (j - 24)) ≡ j = omega arith in
    ap (bytes_of (reply_frame n src_mac d size sum)) split
    ∙ bytes_of-drop 38 (j - 24) (reply_frame n src_mac d size sum)
    ∙ bytes_of-slice (from d 20) 4 (size - 4) (j - 24) (omega arith)
    ∙ ap d place

net_send_ipv4-whole :
    (n : Net) (ip : Ip4) (mac : Mac) (payload : List ℕ)
    → length payload + 34 < 2 ^ 16
    → (net_send_ipv4 n ip mac 1 payload).frames
      ≡ n.frames ++ (eth_frame mac n.my_mac ethertype_ipv4 (ip_packet n.my_ip ip 1 payload) ∷ [])
unfolding net_send_ipv4 net_send_eth
net_send_ipv4-whole n ip mac payload h =
    let f = eth_frame mac n.my_mac ethertype_ipv4 (ip_packet n.my_ip ip 1 payload) in
    ap (λ x. n.frames ++ (x ∷ []))
      (take-whole (u16 (14 + length (ip_packet n.my_ip ip 1 payload))) f (omega arith))

-- A packet received is at `d`, of which `len` bytes were received, 20 at least. It holds an echo
-- request to this machine, has no options, and its own length field says from 28 to 65,521. Then one
-- frame is sent, as long as the field says and 14 bytes for the Ethernet header, and from the place of
-- the echo's identifier on its bytes are those of the memory from `d` on, also where the field exceeds
-- `len`: these are bytes behind the packet, which the sender is given.
pub echo_leaks_memory :
    (n : Net) (src_mac : Mac) (d : Bytes) (len : ℕ)
    → 20 ≤ len
    → ip_eq (ip_at d 16) n.my_ip ≡ true
    → d 0 ≡ 0x45
    → d 9 ≡ 1
    → d 20 ≡ 8
    → 28 ≤ ntohs (load16 d 2)
    → ntohs (load16 d 2) < 65522
    → (frame : List ℕ) × ((net_handle_ipv4 n src_mac d len).frames ≡ n.frames ++ (frame ∷ []))
      × (length frame ≡ ntohs (load16 d 2) + 14)
      × ((j : ℕ) → 24 ≤ j → j < ntohs (load16 d 2) → bytes_of frame (14 + j) ≡ d j)
echo_leaks_memory n src_mac d len l mine v p t lo hi =
    let size = ntohs (load16 d 2) - 20 in
    let sum = net_checksum (bytes_of (icmp_reply (from d 20) size 0)) size in
    let reply = icmp_reply (from d 20) size sum in
    (
      reply_frame n src_mac d size sum,
      ap (λ m. m.frames) (echo_reply n src_mac d len l mine v p t lo)
          ∙ net_send_ipv4-whole n (ip_at d 12) src_mac reply
              (omega (arith, length-slice (from d 20) 4 (size - 4))),
      length-reply_frame n src_mac d size sum (omega arith) ∙ omega arith,
      λ j a b. reply_frame-byte n src_mac d size sum j a (omega arith),
    )
