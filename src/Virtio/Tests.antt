-- ===== src/Virtio/Tests.antt =====
-- kernel/virtio.c: instances at counters about to wrap, and at the bases of the QEMU machine.
use risc_v_os.Base.{length, ℕ, ◌-◌, ◌^◌, ◌≡◌, refl, some, [], ◌∷◌, ◌==◌, arith, if◌then◌else◌}
use risc_v_os.Virtio.{
  Virtq, no_elem, virtq_push, virtq_pop_used, virtio_probe, find_device_from, virtio_find_device,
}
use risc_v_os.Virtio.Used.{seen, virtq_pop_used_lem}
use risc_v_os.Virtio.Avail.{offered, outstanding, offered-virtq_push}

-- Two completions, the counter of the second past the wrap.
abbrev wrapping : Virtq
wrapping = record {
  descs = [];
  avail_index = 2 ^ 16 - 1;
  avail_ring = 9 ∷ 1 ∷ 2 ∷ 3 ∷ 4 ∷ 5 ∷ 6 ∷ 7 ∷ 8 ∷ 9 ∷ 10 ∷ 11 ∷ 12 ∷ 13 ∷ 14 ∷ 15 ∷ [];
  used_index = 1;
  used_ring =
      record { id = 3; len = 60 }
      ∷ no_elem
      ∷ no_elem
      ∷ no_elem
      ∷ no_elem
      ∷ no_elem
      ∷ no_elem
      ∷ no_elem
      ∷ no_elem
      ∷ no_elem
      ∷ no_elem
      ∷ no_elem
      ∷ no_elem
      ∷ no_elem
      ∷ no_elem
      ∷ record { id = 5; len = 70 }
      ∷ [];
  queue_index = 0;
  submitted_index = 0;
  consumed_used_index = 2 ^ 16 - 1;
}

virtq_pop_used_lem_example :
    seen (virtq_pop_used wrapping)
    ≡ some (record { id = 5; len = 70 }, record { id = 3; len = 60 } ∷ [])
virtq_pop_used_lem_example = virtq_pop_used_lem wrapping (omega arith)

offered-virtq_push_example :
    (offered (virtq_push 4 wrapping) (2 ^ 16 - 2) ≡ 14 ∷ 4 ∷ [])
    × (outstanding (virtq_push 4 wrapping) (2 ^ 16 - 2) ≡ 2)
    × ((virtq_push 4 wrapping).used_ring ≡ wrapping.used_ring)
    × ((virtq_push 4 wrapping).used_index ≡ 1)
    × ((virtq_push 4 wrapping).consumed_used_index ≡ 2 ^ 16 - 1)
    × ((virtq_push 4 wrapping).descs ≡ wrapping.descs)
    × ((virtq_push 4 wrapping).queue_index ≡ wrapping.queue_index)
    × ((virtq_push 4 wrapping).submitted_index ≡ wrapping.submitted_index)
    × (length (virtq_push 4 wrapping).avail_ring ≡ 16)
offered-virtq_push_example =
    offered-virtq_push wrapping (2 ^ 16 - 2) 4 refl (omega arith) (omega arith) (omega arith)
      (omega arith)

-- A network device at the second base alone.
abbrev machine : ℕ → ℕ
machine a =
    if a == 0x1000_2000
    then 0x74726976
    else if a == 0x1000_2004
    then 1
    else if a == 0x1000_2008
    then 1
    else 0

found_net : virtio_find_device machine 1 ≡ some 0x1000_2000
unfolding virtio_find_device find_device_from virtio_probe
found_net = refl
