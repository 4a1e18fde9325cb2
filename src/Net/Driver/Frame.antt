-- ===== src/Net/Driver/Frame.antt =====
-- kernel/virtio_net.c: the bytes of the frame that is handed to the device.
use Prim.Native.Nat.{bit_and}
use risc_v_os.Base.{
  ℕ, ◌+◌, ◌-◌, ◌/◌, ◌^◌, ◌<◌, ◌≤◌, ◌≡◌, refl, ap, ◌∙◌, List, [], true, ◌∷◌, ◌++◌, arith, take, drop,
  length, replicate, length-append, length-take, take-append, drop-append, take-all,
  length-replicate, subst, sym,
}
use risc_v_os.Base.Word.{u8}
use risc_v_os.Base.Bits.{bit_and-mask}
use risc_v_os.Net.Wire.{read_be16, write_be16, write_ipv4, read_be16-write_be16}
use risc_v_os.Net.Arp.{net_mac, ethernet_header_size}
use risc_v_os.Net.Ipv4.{Ipv4, ipv4_receive, ipv4_packet, ipv4_header, ipv4_is_for_us}
use risc_v_os.Net.Ipv4.Receive.{Accepted, rx_accept-Accepted}
use risc_v_os.Net.Ipv4.Header.{ipv4_receive-ipv4_packet}
use risc_v_os.Net.Driver.{eth_max_frame_size}
use risc_v_os.Net.Driver.Send.{ethernet_frame, max_payload_len, padded}

type_bytes :
    (ethertype : ℕ) (rest : List ℕ)
    → ethertype < 2 ^ 16
    → read_be16 (u8 (ethertype / 2 ^ 8) ∷ bit_and ethertype 0xff ∷ rest) ≡ ethertype
unfolding write_be16
type_bytes ethertype rest small =
    ap (λ b. read_be16 (u8 (ethertype / 2 ^ 8) ∷ b ∷ rest))
      (omega (arith, bit_and-mask 8 ethertype))
    ∙ read_be16-write_be16 ethertype rest small

-- A frame of the stack holds 1514 bytes: the two addresses, the type, the payload as it was given, and
-- zeros to the end, so that nothing of an earlier frame is left in the buffer.
pub ethernet_frame_lem :
    (dst payload : List ℕ) (ethertype len : ℕ)
    → length dst ≡ 6
    → ethertype < 2 ^ 16
    → len ≤ max_payload_len
    → len ≤ length payload
    → let f = ethernet_frame dst ethertype payload len in
      (length f ≡ eth_max_frame_size)
      × ((take 6 f ≡ dst)
          × ((take 6 (drop 6 f) ≡ net_mac)
              × ((read_be16 (drop 12 f) ≡ ethertype)
                  × ((take len (drop ethernet_header_size f) ≡ take len payload)
                      × (drop len (drop ethernet_header_size f)
                          ≡ replicate (max_payload_len - len) 0)))))
ethernet_frame_lem (a ∷ b ∷ c ∷ d ∷ e ∷ f ∷ []) payload ethertype len six small fits full =
    let cut : length (take len payload) ≡ len = omega (arith, length-take len payload) in
    let body = take len payload in
    let zeros = replicate (max_payload_len - len) 0 in
    (
      omega (
        arith,
        length-append body zeros,
        cut,
        length-replicate {A = ℕ} (max_payload_len - len) 0,
      ),
      (
        refl,
        (
          refl,
          (
            type_bytes ethertype (body ++ zeros) small,
            (take-append len body zeros cut, drop-append len body zeros cut),
          ),
        ),
      ),
    )
ethernet_frame_lem dst payload ethertype len six small fits full = absurd (omega (arith, six))

pub length-ipv4_packet :
    (len ident proto ip : ℕ) (payload : List ℕ)
    → length (ipv4_packet len ident proto ip payload) ≡ 20 + length payload
unfolding ipv4_packet ipv4_header write_be16 write_ipv4
length-ipv4_packet len ident proto ip payload = omega arith

-- A frame with a packet of `ipv4_send` is accepted by `ipv4_receive`: for a payload of at most 1480
-- bytes and a destination that is the receiver's own address or the broadcast one, the receiver
-- counts the packet once and once as ICMP, UDP, TCP or other, by its protocol, and drops nothing, also
-- where the frame was padded.
pub ipv4_receive-ethernet_frame :
    (dst payload : List ℕ) (ethertype ident proto ip : ℕ) (s : Ipv4)
    → length dst ≡ 6
    → 20 + length payload ≤ max_payload_len
    → ip < 2 ^ 32
    → ipv4_is_for_us ip ≡ true
    → let len = 20 + length payload in
      Accepted (u8 proto) s (
        ipv4_receive
          (ethernet_frame dst ethertype (ipv4_packet len ident proto ip payload) len)
          (padded (ethernet_header_size + len))
          s)
ipv4_receive-ethernet_frame (a ∷ b ∷ c ∷ d ∷ e ∷ f ∷ []) payload ethertype ident proto ip s six fits
      ip_u32 ours =
    subst (Accepted (u8 proto) s)
      (sym (
        ap (λ p. ipv4_receive (eth ++ (p ++ zeros)) (padded (ethernet_header_size + len)) s)
          (take-all len packet (length-ipv4_packet len ident proto ip payload))
        ∙ ipv4_receive-ipv4_packet ident proto ip (padded (ethernet_header_size + len)) eth payload
            zeros s refl (omega arith) (ground arith) ip_u32 ours))
      (rx_accept-Accepted (u8 proto) s)
  where
    len : ℕ
    len = 20 + length payload

    packet : List ℕ
    packet = ipv4_packet len ident proto ip payload

    zeros : List ℕ
    zeros = replicate (max_payload_len - len) 0

    eth : List ℕ
    eth =
        a
        ∷ b
        ∷ c
        ∷ d
        ∷ e
        ∷ f
        ∷ (take 6 net_mac ++ (u8 (ethertype / 2 ^ 8) ∷ bit_and ethertype 0xff ∷ []))
ipv4_receive-ethernet_frame dst payload ethertype ident proto ip s six fits ip_u32 ours =
    absurd (omega (arith, six))
