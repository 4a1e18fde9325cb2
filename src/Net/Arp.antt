-- ===== src/Net/Arp.antt =====
-- kernel/arp.c: the cache, the packet format, and what a received packet does.
pub mod Slot
pub mod Cache
pub mod Packet
mod Tests
use risc_v_os.Base.{
  ℕ, suc, zero, ◌+◌, Bool, true, false, not, ◌&&◌, ◌||◌, Option, none, some, List, [], ◌∷◌, ◌++◌,
  ltb, ◌==◌, if◌then◌else◌, get_or, set, take, drop, replicate, find_index, length,
}
use risc_v_os.Net.Wire.{byte, read_be16, write_be16, read_ipv4, write_ipv4}

abbrev pub ethernet_header_size : ℕ
ethernet_header_size = 14

abbrev pub ipv4_local_address : ℕ
ipv4_local_address = 0x0a00020f

abbrev pub arp_ethertype : ℕ
arp_ethertype = 0x0806

abbrev pub arp_cache_size : ℕ
arp_cache_size = 8

abbrev pub arp_operation_request : ℕ
arp_operation_request = 1

abbrev pub arp_operation_reply : ℕ
arp_operation_reply = 2

-- `static const uint8_t net_mac[6]` of kernel/virtio_net.c.
abbrev pub net_mac : List ℕ
net_mac = 0x52 ∷ 0x54 ∷ 0x00 ∷ 0x12 ∷ 0x34 ∷ 0x56 ∷ []

pub record CacheEntry : Type 0 where
  pub valid : Bool
  pub ip : ℕ
  pub mac : List ℕ

abbrev pub no_entry : CacheEntry
no_entry = record { valid = false; ip = 0; mac = replicate 6 0 }

pub record PendingReply : Type 0 where
  pub pending : Bool
  pub target_mac : List ℕ
  pub target_ip : ℕ

pub record Arp : Type 0 where
  pub arp_cache : List CacheEntry
  pub pending_reply : PendingReply

-- The two `memset` calls of `arp_init`.
unfoldable pub arp_init : Arp
arp_init = record {
  arp_cache = replicate arp_cache_size no_entry;
  pending_reply = record { pending = false; target_mac = replicate 6 0; target_ip = 0 };
}

abbrev pub has_ip : ℕ → CacheEntry → Bool
has_ip ip e = e.valid && e.ip == ip

-- How the loop of `arp_cache_update` ends: at an entry with the address, or behind the last entry
-- with the first free index met.
pub data Scan : Type 0 where
  hit : ℕ → Scan
  miss : Option ℕ → Scan

abbrev pub note_free : ℕ → CacheEntry → Option ℕ → Option ℕ
note_free i e none = if e.valid then none else some i
note_free i e (some f) = some f

unfoldable pub scan : ℕ → ℕ → Option ℕ → List CacheEntry → Scan
scan ip i free_index [] = miss free_index
scan ip i free_index (e ∷ es) =
    let rest = scan ip (i + 1) (note_free i e free_index) es in if has_ip ip e then hit i else rest

abbrev pub write_entry : ℕ → List ℕ → ℕ → List CacheEntry → List CacheEntry
write_entry ip mac i es = set es i (record { valid = true; ip = ip; mac = take 6 mac })

abbrev pub write_found : ℕ → List ℕ → List CacheEntry → Scan → List CacheEntry
write_found ip mac es (hit i) = set es i (record (get_or es i no_entry) { mac = take 6 mac })
write_found ip mac es (miss none) = write_entry ip mac 0 es
write_found ip mac es (miss (some free_index)) = write_entry ip mac free_index es

unfoldable pub arp_cache_update : ℕ → List ℕ → List CacheEntry → List CacheEntry
arp_cache_update ip mac es = write_found ip mac es (scan ip 0 none es)

abbrev pub mac_of : List CacheEntry → Option ℕ → Option (List ℕ)
mac_of es none = none
mac_of es (some i) = some (get_or es i no_entry).mac

unfoldable pub arp_lookup : ℕ → List CacheEntry → Option (List ℕ)
arp_lookup ip es = mac_of es (find_index (has_ip ip) es)

-- The 28 bytes of `struct arp_packet`, field by field.
unfoldable pub arp_build_packet : ℕ → List ℕ → ℕ → List ℕ
arp_build_packet operation target_mac target_ip =
    write_be16 1
    ++ write_be16 0x0800
    ++ (6 ∷ 4 ∷ [])
    ++ write_be16 operation
    ++ take 6 net_mac
    ++ write_ipv4 ipv4_local_address
    ++ take 6 target_mac
    ++ write_ipv4 target_ip

-- The packet behind the Ethernet header, and its fields.
abbrev pub packet : List ℕ → List ℕ
packet frame = drop ethernet_header_size frame

abbrev pub operation : List ℕ → ℕ
operation p = read_be16 (drop 6 p)

abbrev pub sender_mac : List ℕ → List ℕ
sender_mac p = take 6 (drop 8 p)

abbrev pub sender_ip : List ℕ → ℕ
sender_ip p = read_ipv4 (drop 14 p)

abbrev pub target_ip : List ℕ → ℕ
target_ip p = read_ipv4 (drop 24 p)

-- The hardware and protocol that the receiver insists on.
unfoldable pub is_ethernet_ipv4 : List ℕ → Bool
is_ethernet_ipv4 p =
    read_be16 p == 1 && (read_be16 (drop 2 p) == 0x0800 && (byte p 4 == 6 && byte p 5 == 4))

unfoldable pub arp_receive : List ℕ → ℕ → Arp → Arp
arp_receive frame frame_len a =
    if ltb frame_len (ethernet_header_size + 28)
    then a
    else if not (is_ethernet_ipv4 (packet frame))
    then a
    else let p = packet frame in
      let learned = record a {
        arp_cache = arp_cache_update (sender_ip p) (sender_mac p) a.arp_cache;
      } in
      if operation p == arp_operation_request && target_ip p == ipv4_local_address
      then record learned {
        pending_reply = record {
          pending = true;
          target_mac = sender_mac p;
          target_ip = sender_ip p;
        };
      }
      else learned
