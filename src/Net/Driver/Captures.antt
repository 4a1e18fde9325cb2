-- ===== src/Net/Driver/Captures.antt =====
-- kernel/virtio_net.c: the capture ring as a bounded queue of frames.
use risc_v_os.Base.{
  ℕ, suc, zero, ◌+◌, ◌%◌, ◌^◌, ◌≤◌, ◌<◌, ◌≡◌, refl, sym, ap, ◌∙◌, true, false, Option, none, some,
  List, [], ◌∷◌, ◌++◌, arith, ltb, leb, ◌==◌, if◌then◌else◌, take, drop, set, get_or, length,
  length-set, length-take, get_or-set_self, get_or-set_ne, take-append, take-take, Bool-cases, inl,
  inr, ==→eq,
}
use risc_v_os.Base.Word.{u16, add32, sub16}
use risc_v_os.Virtio.Used.{uncons}
use risc_v_os.Net.Driver.{
  Capture, no_capture, Nic, net_rx_capture_num, capture_rx, pop_rx_frame, overwrite,
}

-- A capture as its reader sees it: the bytes received, without what the slot held before.
abbrev pub shown : Capture → Capture
shown c = record c { frame = take c.len c.frame }

-- The `n` captures from counter value `k` on.
abbrev pub slots : List Capture → ℕ → ℕ → List Capture
slots ring k zero = []
slots ring k (suc n) =
    shown (get_or ring (k % net_rx_capture_num) no_capture) ∷ slots ring (u16 (k + 1)) n

abbrev pub waiting : Nic → ℕ
waiting c = sub16 c.capture_write c.capture_read

-- The frames captured and not read yet, oldest first.
abbrev pub captured : Nic → List Capture
captured c = slots c.rx_captures c.capture_read (waiting c)

pub record IsRing (c : Nic) : Type 0 where
  pub sixteen : length c.rx_captures ≡ net_rx_capture_num
  pub write_u16 : c.capture_write < 2 ^ 16
  pub read_u16 : c.capture_read < 2 ^ 16
  pub bounded : waiting c ≤ net_rx_capture_num

take-overwrite :
    (dst src : List ℕ) (n : ℕ) → n ≤ length src → take n (overwrite dst src n) ≡ take n src
take-overwrite dst src n h =
    take-append n (take n src) (drop n dst) (omega (arith, length-take n src))

slots-set_past :
    (ring : List Capture) (i : ℕ) (v : Capture) (k n : ℕ)
    → length ring ≡ net_rx_capture_num
    → n < net_rx_capture_num
    → i ≡ (k + n) % net_rx_capture_num
    → k < 2 ^ 16
    → slots (set ring i v) k (suc n) ≡ slots ring k n ++ (shown v ∷ [])
slots-set_past ring i v k zero len lt e h =
    let at : i ≡ k % net_rx_capture_num = omega arith in
    rw at (
      ap (λ x. shown x ∷ [])
        (get_or-set_self ring (k % net_rx_capture_num) v no_capture (omega arith)))
slots-set_past ring i v k (suc n) len lt e h =
    ap (λ x. shown x ∷ slots (set ring i v) (u16 (k + 1)) (suc n))
      (get_or-set_ne ring i (k % net_rx_capture_num) v no_capture (omega arith))
    ∙ ap (λ xs. shown (get_or ring (k % net_rx_capture_num) no_capture) ∷ xs)
        (slots-set_past ring i v (u16 (k + 1)) n len (omega arith) (omega arith) (omega arith))

abbrev pub new_capture : List ℕ → ℕ → ℕ → Capture
new_capture frame frame_len ethertype = record {
  len = frame_len;
  ethertype = ethertype;
  frame = take frame_len frame;
}

abbrev stored : List ℕ → ℕ → ℕ → Nic → Capture
stored frame frame_len ethertype c = record {
  len = frame_len;
  ethertype = ethertype;
  frame =
      overwrite (get_or c.rx_captures (c.capture_write % net_rx_capture_num) no_capture).frame frame
        frame_len;
}

captured_more :
    (frame : List ℕ) (frame_len ethertype : ℕ) (c : Nic)
    → IsRing c
    → frame_len ≤ length frame
    → waiting c < net_rx_capture_num
    → slots
        (set c.rx_captures
          (c.capture_write % net_rx_capture_num)
          (stored frame frame_len ethertype c))
        c.capture_read
        (sub16 (u16 (c.capture_write + 1)) c.capture_read)
      ≡ captured c ++ (new_capture frame frame_len ethertype ∷ [])
captured_more frame frame_len ethertype c r fits room =
    ap (slots (set c.rx_captures i v) c.capture_read) one_more
    ∙ slots-set_past c.rx_captures i v c.capture_read (waiting c) r.sixteen room (omega (arith, r))
        r.read_u16
    ∙ ap (λ f. captured c ++ (record { len = frame_len; ethertype = ethertype; frame = f } ∷ []))
        (take-overwrite (get_or c.rx_captures i no_capture).frame frame frame_len fits)
  where
    i : ℕ
    i = c.capture_write % net_rx_capture_num

    v : Capture
    v = stored frame frame_len ethertype c

    one_more : sub16 (u16 (c.capture_write + 1)) c.capture_read ≡ suc (waiting c)
    one_more = omega (arith, r)

-- A received frame joins the end of the queue of captures, with its length, its ethertype and its
-- bytes; where sixteen wait already, it is counted as dropped and the queue stays. The ring stays
-- well formed.
pub capture_rx_lem :
    (frame : List ℕ) (frame_len ethertype : ℕ) (c : Nic)
    → IsRing c
    → frame_len ≤ length frame
    → let c' = capture_rx frame frame_len ethertype c in
      IsRing c'
      × (captured c' ≡ (
          if waiting c == net_rx_capture_num
          then captured c
          else captured c ++ (new_capture frame frame_len ethertype ∷ [])))
      × (c'.capture_drops
          ≡ (if waiting c == net_rx_capture_num then add32 c.capture_drops 1 else c.capture_drops))
unfolding capture_rx
capture_rx_lem frame frame_len ethertype c r fits =
    elim (Bool-cases (leb net_rx_capture_num (waiting c))) [
      | inl full ↦
          let at : (waiting c == net_rx_capture_num) ≡ true = ground (arith, r.bounded) in
          rw (full, at)
            (
              record {
                sixteen = r.sixteen;
                write_u16 = r.write_u16;
                read_u16 = r.read_u16;
                bounded = r.bounded;
              },
              refl,
              refl,
            )
      | inr room ↦
          let at : (waiting c == net_rx_capture_num) ≡ false = ground arith in
          rw (room, at)
            (
              record {
                sixteen = length-set c.rx_captures _ _ ∙ r.sixteen;
                write_u16 = omega arith;
                read_u16 = r.read_u16;
                bounded = ground (arith, r);
              },
              captured_more frame frame_len ethertype c r fits (ground arith),
              refl,
            )
    ]

slots-step :
    (ring : List Capture) (k n m : ℕ)
    → n ≡ suc m
    → uncons (slots ring k n)
      ≡ some (shown (get_or ring (k % net_rx_capture_num) no_capture), slots ring (u16 (k + 1)) m)
slots-step ring k n m e = rw e refl

abbrev pub cut : ℕ → Capture → Capture
cut capacity c =
    let n = if ltb capacity c.len then capacity else c.len in
    record c { len = n; frame = take n c.frame }

abbrev pub cut_first : ℕ → Option (Capture × List Capture) → Option (Capture × List Capture)
cut_first capacity none = none
cut_first capacity (some (c, cs)) = some (cut capacity c, cs)

abbrev pub popped : Option (Capture × Nic) → Option (Capture × List Capture)
popped none = none
popped (some (c, nic)) = some (c, captured nic)

-- virtio_net_pop_rx_frame takes the oldest frame off the queue of captures, cut to the reader's
-- capacity, and answers no exactly when none waits.
pub pop_rx_frame_lem :
    (capacity : ℕ) (c : Nic)
    → IsRing c
    → popped (pop_rx_frame capacity c) ≡ cut_first capacity (uncons (captured c))
unfolding pop_rx_frame
pop_rx_frame_lem capacity c r = elim (Bool-cases (c.capture_read == c.capture_write)) [
  | inl same ↦ let idle : waiting c ≡ 0 = omega (arith, r, ==→eq _ _ same) in rw (same, idle) refl
  | inr more ↦ rw more (
      ap
        (λ f. some (
          record { len = n; ethertype = x.ethertype; frame = f },
          slots c.rx_captures (u16 (c.capture_read + 1))
              (sub16 c.capture_write (u16 (c.capture_read + 1))),
        ))
        (sym (take-take n x.len x.frame (ground arith)))
      ∙ ap (cut_first capacity)
          (sym (slots-step c.rx_captures c.capture_read (waiting c) _ (ground (arith, r)))))
]
  where
    x : Capture
    x = get_or c.rx_captures (c.capture_read % net_rx_capture_num) no_capture

    n : ℕ
    n = if ltb capacity x.len then capacity else x.len
