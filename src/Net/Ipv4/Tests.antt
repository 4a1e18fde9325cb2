-- ===== src/Net/Ipv4/Tests.antt =====
-- kernel/ipv4.c: instances on a broadcast datagram.
use risc_v_os.Base.{ℕ, ◌≡◌, refl, ◌⊎◌, List, [], ◌∷◌, ◌++◌, arith, replicate}
use risc_v_os.Net.Ipv4.{
  ipv4_init, ipv4_receive, ipv4_packet, ipv4_checksum, ipv4_broadcast_address, word_sum,
  fold_carries,
}
use risc_v_os.Net.Ipv4.Receive.{Acceptable, Accepted, dropped_one, IsBalanced, ipv4_receive_lem}

-- A header with the checksum that its other words ask for.
abbrev sample : List ℕ
sample =
    0x45 ∷ 0 ∷ 0 ∷ 0x73 ∷ 0 ∷ 0 ∷ 0x40 ∷ 0 ∷ 0x40 ∷ 0x11 ∷ 0xb8 ∷ 0x61 ∷ 0xc0 ∷ 0xa8 ∷ 0 ∷ 1 ∷ 0xc0
    ∷ 0xa8 ∷ 0 ∷ 0xc7 ∷ []

checksum_runs : ipv4_checksum sample ≡ 0
unfolding ipv4_checksum word_sum fold_carries
checksum_runs = refl

-- The datagram as it stands in a padded frame.
abbrev frame : List ℕ
frame =
    replicate 14 0xff
    ++ (ipv4_packet 23 5 17 ipv4_broadcast_address (1 ∷ 2 ∷ 3 ∷ []) ++ replicate 23 0)

ipv4_receive_lem_example :
    (Acceptable (replicate 60 0) 60
      × Accepted 0 ipv4_init (ipv4_receive (replicate 60 0) 60 ipv4_init))
    ⊎ ((¬ Acceptable (replicate 60 0) 60)
        × (ipv4_receive (replicate 60 0) 60 ipv4_init ≡ dropped_one ipv4_init))
ipv4_receive_lem_example = ipv4_receive_lem (replicate 60 0) 60 ipv4_init (omega arith)

init-IsBalanced : IsBalanced ipv4_init.stats
unfolding ipv4_init
init-IsBalanced = refl
