-- ===== src/Net/Tests.antt =====
-- Fields of packets, written and read at one value each.
use risc_v_os.Base.{◌≡◌, [], ◌∷◌, ◌++◌, arith}
use risc_v_os.Net.Wire.{
  read_be16, write_be16, read_ipv4, write_ipv4, read_be16-write_be16, read_ipv4-write_ipv4,
}

be16_read_back : read_be16 (write_be16 0x0806 ++ (1 ∷ [])) ≡ 0x0806
be16_read_back = read_be16-write_be16 0x0806 (1 ∷ []) (omega arith)

ipv4_read_back : read_ipv4 (write_ipv4 0x0a00_020f ++ []) ≡ 0x0a00_020f
ipv4_read_back = read_ipv4-write_ipv4 0x0a00_020f [] (omega arith)
