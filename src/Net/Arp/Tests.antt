-- ===== src/Net/Arp/Tests.antt =====
-- kernel/arp.c: instances on a small exchange.
use risc_v_os.Base.{
  ℕ, suc, zero, ◌≡◌, refl, true, some, List, [], ◌∷◌, ◌++◌, arith, replicate, length, find_index,
  inr,
}
use risc_v_os.Net.Wire.{read_be16}
use risc_v_os.Net.Arp.{
  CacheEntry, no_entry, has_ip, arp_init, arp_lookup, arp_cache_update, arp_receive,
  is_ethernet_ipv4, net_mac, ipv4_local_address, arp_cache_size,
}
use risc_v_os.Net.Arp.Slot.{entry}
use risc_v_os.Net.Arp.Cache.{IsKeyed, arp_lookup-arp_cache_update, arp_cache_update-IsKeyed}
use risc_v_os.Net.Arp.Packet.{Fields, layout, receive_fields, arp_receive_lem, arp_receive_ignores}

abbrev peer_mac : List ℕ
peer_mac = 0x52 ∷ 0x55 ∷ 0x0a ∷ 0 ∷ 2 ∷ 2 ∷ []

abbrev peer_ip : ℕ
peer_ip = 0x0a00_0202

abbrev known : CacheEntry
known = record { valid = true; ip = peer_ip; mac = peer_mac }

abbrev cache : List CacheEntry
cache = known ∷ replicate 7 no_entry

at_front : (a i : ℕ) → has_ip a (entry cache i) ≡ true → i ≡ 0
at_front a zero h = refl
at_front a (suc zero) h = absurd (ground arith)
at_front a (suc (suc zero)) h = absurd (ground arith)
at_front a (suc (suc (suc zero))) h = absurd (ground arith)
at_front a (suc (suc (suc (suc zero)))) h = absurd (ground arith)
at_front a (suc (suc (suc (suc (suc zero))))) h = absurd (ground arith)
at_front a (suc (suc (suc (suc (suc (suc zero)))))) h = absurd (ground arith)
at_front a (suc (suc (suc (suc (suc (suc (suc zero))))))) h = absurd (ground arith)
at_front a (suc (suc (suc (suc (suc (suc (suc (suc i)))))))) h = absurd (ground arith)

cache-IsKeyed : IsKeyed cache
cache-IsKeyed a i j hi hj = omega (arith, at_front a i hi, at_front a j hj)

arp_lookup-arp_cache_update_example :
    arp_lookup peer_ip (arp_cache_update 7 net_mac cache) ≡ some peer_mac
unfolding arp_lookup find_index
arp_lookup-arp_cache_update_example =
    arp_lookup-arp_cache_update 7 peer_ip net_mac cache refl cache-IsKeyed

arp_cache_update-IsKeyed_example :
    IsKeyed (arp_cache_update 7 net_mac cache)
    × (length (arp_cache_update 7 net_mac cache) ≡ arp_cache_size)
arp_cache_update-IsKeyed_example = arp_cache_update-IsKeyed 7 net_mac cache refl cache-IsKeyed

-- Eight known stations, so that a ninth takes the place of the first.
abbrev full : List CacheEntry
full = known ∷ replicate 7 (record known { ip = 1 })

-- The peer asks for the local address.
abbrev question : Fields
question = record {
  oper = 1;
  sha = peer_mac;
  spa = peer_ip;
  tha = replicate 6 0;
  tpa = ipv4_local_address;
}

arp_receive_lem_example :
    arp_receive (replicate 14 0xff ++ layout question (replicate 18 0)) 60 arp_init
    ≡ receive_fields question arp_init
arp_receive_lem_example =
    arp_receive_lem question (replicate 14 0xff) (replicate 18 0) 60 arp_init (omega arith) refl
      (omega arith)

short_frame_ignored : arp_receive (replicate 60 0) 60 arp_init ≡ arp_init
unfolding is_ethernet_ipv4 read_be16
short_frame_ignored = arp_receive_ignores (replicate 60 0) 60 arp_init (inr refl)
