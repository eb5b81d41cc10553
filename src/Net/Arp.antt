-- ===== src/Net/Arp.antt =====
-- The ARP cache of src/kernel/net.c.
use zoho_os_chatbot.Base.{◌≡◌, refl, Bool, true, false, not, ◌||◌, some, List, [], ◌∷◌, arith}
use zoho_os_chatbot.Net.Wire.{Mac, Ip4, ip_eq}
use zoho_os_chatbot.Net.{ArpEntry, store_arp, lookup_mac}

-- An entry that is not valid, or is for this address.
abbrev pub has_room : List ArpEntry → Ip4 → Bool
has_room [] ip = false
has_room (e ∷ es) ip = (not e.valid || ip_eq e.ip ip) || has_room es ip

pub ip_eq_self : (a : Ip4) → ip_eq a a ≡ true
ip_eq_self a = ground arith

lookup-store_ne :
    (es : List ArpEntry) (ip other : Ip4) (mac : Mac)
    → ip_eq ip other ≡ false
    → lookup_mac (store_arp es ip mac) other ≡ lookup_mac es other
unfolding store_arp lookup_mac
lookup-store_ne [] ip other mac h = refl
lookup-store_ne (e ∷ es) ip other mac h = ground (arith, lookup-store_ne es ip other mac h)

lookup-store_self :
    (es : List ArpEntry) (ip : Ip4) (mac : Mac)
    → has_room es ip ≡ true
    → lookup_mac (store_arp es ip mac) ip ≡ some mac
unfolding store_arp lookup_mac
lookup-store_self [] ip mac h = cc
lookup-store_self (e ∷ es) ip mac h = ground (arith, ip_eq_self ip, lookup-store_self es ip mac)

store-full :
    (es : List ArpEntry) (ip : Ip4) (mac : Mac) → has_room es ip ≡ false → store_arp es ip mac ≡ es
unfolding store_arp
store-full [] ip mac h = refl
store-full (e ∷ es) ip mac h = ground (arith, store-full es ip mac)

-- What is stored is found, and no other address's entry changes; a full cache without the address
-- stays as it is.
pub lookup-store :
    (es : List ArpEntry) (ip other : Ip4) (mac : Mac)
    → (has_room es ip ≡ true → lookup_mac (store_arp es ip mac) ip ≡ some mac)
      × (has_room es ip ≡ false → store_arp es ip mac ≡ es)
      × (ip_eq ip other ≡ false → lookup_mac (store_arp es ip mac) other ≡ lookup_mac es other)
lookup-store es ip other mac =
    (lookup-store_self es ip mac, store-full es ip mac, lookup-store_ne es ip other mac)
