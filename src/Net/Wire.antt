-- ===== src/Net/Wire.antt =====
-- Bytes on the wire: the byte orders, addresses and slices of packets in src/kernel/net.c, and the
-- Internet checksum.
use zoho_os_chatbot.Base.{
  ℕ, zero, suc, ◌+◌, ◌-◌, ◌*◌, ◌/◌, ◌%◌, ◌^◌, Bool, true, false, ◌&&◌, List, [], ◌∷◌, ◌==◌,
  if◌then◌else◌, u32, get_or,
}

abbrev pub Bytes : Type 0
Bytes = ℕ → ℕ

pub record Mac : Type 0 where
  pub b0 : ℕ
  pub b1 : ℕ
  pub b2 : ℕ
  pub b3 : ℕ
  pub b4 : ℕ
  pub b5 : ℕ

pub record Ip4 : Type 0 where
  pub b0 : ℕ
  pub b1 : ℕ
  pub b2 : ℕ
  pub b3 : ℕ

-- The bytes of an address in front of others.
abbrev pub mac_bytes : Mac → List ℕ → List ℕ
mac_bytes m rest = m.b0 ∷ m.b1 ∷ m.b2 ∷ m.b3 ∷ m.b4 ∷ m.b5 ∷ rest

abbrev pub ip_bytes : Ip4 → List ℕ → List ℕ
ip_bytes a rest = a.b0 ∷ a.b1 ∷ a.b2 ∷ a.b3 ∷ rest

abbrev pub mac_at : Bytes → ℕ → Mac
mac_at d i = record {
  b0 = d i;
  b1 = d (i + 1);
  b2 = d (i + 2);
  b3 = d (i + 3);
  b4 = d (i + 4);
  b5 = d (i + 5);
}

abbrev pub ip_at : Bytes → ℕ → Ip4
ip_at d i = record { b0 = d i; b1 = d (i + 1); b2 = d (i + 2); b3 = d (i + 3) }

-- `memcmp(a, b, 4) == 0`
abbrev pub ip_eq : Ip4 → Ip4 → Bool
ip_eq a b = (a.b0 == b.b0) && (a.b1 == b.b1) && (a.b2 == b.b2) && (a.b3 == b.b3)

-- The two bytes of a `uint16_t` in memory, and the number that two bytes are.
abbrev pub low8 : ℕ → ℕ
low8 n = n % 256

abbrev pub high8 : ℕ → ℕ
high8 n = n / 256 % 256

abbrev pub load16 : Bytes → ℕ → ℕ
load16 d i = d i + 256 * d (i + 1)

-- `swap16` and `swap32`.
abbrev pub htons : ℕ → ℕ
htons n = n % 256 * 256 + n / 256 % 256

abbrev pub ntohs : ℕ → ℕ
ntohs n = htons n

abbrev pub htonl : ℕ → ℕ
htonl n =
    n % 256 * 0x1000000
    + n / 0x100 % 256 * 0x10000
    + n / 0x10000 % 256 * 0x100
    + n / 0x1000000 % 256

-- The bytes of a `uint32_t` in memory, in front of others.
abbrev pub le32 : ℕ → List ℕ → List ℕ
le32 n rest = n % 256 ∷ n / 0x100 % 256 ∷ n / 0x10000 % 256 ∷ n / 0x1000000 % 256 ∷ rest

abbrev pub load32 : Bytes → ℕ → ℕ
load32 d i = d i + 0x100 * d (i + 1) + 0x10000 * d (i + 2) + 0x1000000 * d (i + 3)

-- `n` bytes of memory, and the memory that a list fills.
unfoldable pub slice : Bytes → ℕ → ℕ → List ℕ
slice d i zero = []
slice d i (suc n) = d i ∷ slice d (suc i) n

abbrev pub bytes_of : List ℕ → Bytes
bytes_of xs i = get_or xs i 0

-- The first two loops of `net_checksum`: the words left, the address and the sum.
unfoldable pub sum_words : ℕ → Bytes → ℕ → ℕ → ℕ
sum_words zero d i sum = sum
sum_words (suc n) d i sum = sum_words n d (i + 2) (u32 (sum + load16 d i))

-- `while (sum >> 16)`, which ends in three rounds.
unfoldable pub fold_sum : ℕ → ℕ → ℕ
fold_sum zero sum = sum
fold_sum (suc fuel) sum = elim (sum / 2 ^ 16 == 0) [
  | true ↦ sum
  | false ↦ fold_sum fuel (sum % 2 ^ 16 + sum / 2 ^ 16)
]

-- `(uint16_t)~sum`
abbrev pub complement : ℕ → ℕ
complement sum = 0xFFFF - sum % 2 ^ 16

abbrev pub checksum_rounds : ℕ
checksum_rounds = 3

unfoldable pub net_checksum : Bytes → ℕ → ℕ
unfolding sum_words fold_sum
net_checksum d len =
    let sum = sum_words (len / 2) d 0 0 in
    let total = if len % 2 == 1 then u32 (sum + d (len - 1)) else sum in
    complement (fold_sum checksum_rounds total)
