-- ===== src/Net/Driver/Drain.antt =====
-- kernel/virtio_net.c: the loops of the interrupt handler take every completion, in order.
use risc_v_os.Base.{
  ℕ, suc, zero, ◌+◌, ◌-◌, ◌%◌, ◌<◌, ◌≡◌, refl, sym, ap, ◌∙◌, Bool, true, false, ◌||◌, Option, none,
  some, List, [], ◌∷◌, arith, leb, ◌==◌, if◌then◌else◌, length, Bool-cases, inl, inr, ==→eq, get_or,
  subst,
}
use risc_v_os.Base.Word.{u16}
use risc_v_os.Virtio.{
  Virtq, VirtqUsedElem, no_elem, virtq_entry_num, virtq_pop_used, virtq_push, virtq_notify,
}
use risc_v_os.Virtio.Used.{
  IsCounted, backlog, completions, entries, seen, uncons, virtq_pop_used_lem,
}
use risc_v_os.Virtio.Pop.{taken, taken-IsCounted}
use risc_v_os.Net.Driver.{
  Nic, Net, rx_one, with_rx, drain_rx_loop, drain_rx, receive_frame, receive_short, dispatch,
  capture_rx, enqueue_rx, clamp_len, net_hdr_size,
}

-- Every completion handled in turn, each taken off the queue first.
abbrev pub handle_all : List VirtqUsedElem → Net → Net
handle_all [] n = n
handle_all (e ∷ es) n = handle_all es (rx_one e (with_rx n (taken n.nic.rx_vq)))

-- The part of a queue that the device writes, and the driver's place in it.
record SameUsed (vq wq : Virtq) : Type 0 where
  ring : wq.used_ring ≡ vq.used_ring
  index : wq.used_index ≡ vq.used_index
  consumed : wq.consumed_used_index ≡ vq.consumed_used_index

enqueue_rx-SameUsed : (i : ℕ) (c : Nic) → SameUsed c.rx_vq (enqueue_rx i c).rx_vq
unfolding enqueue_rx virtq_push
enqueue_rx-SameUsed i c = record { ring = refl; index = refl; consumed = refl }

rx_vq-capture_rx : (f : List ℕ) (l e : ℕ) (c : Nic) → (capture_rx f l e c).rx_vq ≡ c.rx_vq
unfolding capture_rx
rx_vq-capture_rx f l e c = ground arith

rx_vq-dispatch : (f : List ℕ) (l e : ℕ) (n : Net) → (dispatch f l e n).nic.rx_vq ≡ n.nic.rx_vq
unfolding dispatch
rx_vq-dispatch f l e n = ground arith

rx_vq-receive_frame : (f : List ℕ) (l : ℕ) (n : Net) → (receive_frame f l n).nic.rx_vq ≡ n.nic.rx_vq
unfolding receive_frame
rx_vq-receive_frame f l n = rx_vq-dispatch f l _ _ ∙ rx_vq-capture_rx f l _ _

-- Handling a completion leaves the used ring and the place in it alone.
rx_one-SameUsed : (e : VirtqUsedElem) (n : Net) → SameUsed n.nic.rx_vq (rx_one e n).nic.rx_vq
unfolding rx_one receive_short
rx_one-SameUsed e n = elim (Bool-cases (leb 24 e.len)) [
  | inl long ↦ rw long (
      subst (λ vq. SameUsed vq (enqueue_rx e.id (received e n)).rx_vq) (rx_vq-receive_frame _ _ n)
        (enqueue_rx-SameUsed e.id (received e n)))
  | inr short ↦ rw short (enqueue_rx-SameUsed e.id _)
]
  where
    received : VirtqUsedElem → Net → Nic
    received e n =
        (receive_frame (get_or n.nic.rx_frames e.id []) (clamp_len (e.len - net_hdr_size)) n).nic

completions-SameUsed : (vq wq : Virtq) → SameUsed vq wq → completions wq ≡ completions vq
completions-SameUsed vq wq s = rw (s.ring, s.index, s.consumed) refl

IsCounted-SameUsed : (vq wq : Virtq) → SameUsed vq wq → IsCounted vq → IsCounted wq
IsCounted-SameUsed vq wq s c = record {
  used_u16 = rw s.index c.used_u16;
  consumed_u16 = rw s.consumed c.consumed_u16;
}

popped_none : (r : Option (VirtqUsedElem × Virtq)) → seen r ≡ none → r ≡ none
popped_none none e = refl
popped_none (some (x, vq)) e = cc

pub pop_nothing : (vq : Virtq) → IsCounted vq → completions vq ≡ [] → virtq_pop_used vq ≡ none
pop_nothing vq c e = popped_none _ (virtq_pop_used_lem vq c ∙ ap uncons e)

some_pair-injective :
    (x y : VirtqUsedElem) (u v : List VirtqUsedElem)
    → ◌≡◌ {A = Option (VirtqUsedElem × List VirtqUsedElem)} (some (x, u)) (some (y, v))
    → (x ≡ y) × (u ≡ v)
some_pair-injective x y u v e = (cc, cc)

not_idle :
    (vq : Virtq) (x : VirtqUsedElem) (xs : List VirtqUsedElem)
    → completions vq ≡ x ∷ xs
    → vq.consumed_used_index ≡ vq.used_index
    → IsCounted vq
    → ⊥
not_idle vq x xs e same c =
    let idle : backlog vq ≡ 0 = omega (arith, c) in
    let none_left : completions vq ≡ [] = rw idle refl in cc

pop_first :
    (vq : Virtq) (x : VirtqUsedElem) (xs : List VirtqUsedElem)
    → IsCounted vq
    → completions vq ≡ x ∷ xs
    → (virtq_pop_used vq ≡ some (x, taken vq)) × (completions (taken vq) ≡ xs)
unfolding virtq_pop_used
pop_first vq x xs c e = elim (Bool-cases (vq.consumed_used_index == vq.used_index)) [
  | inl same ↦ absurd (not_idle vq x xs e (==→eq _ _ same) c)
  | inr more ↦
      let found : virtq_pop_used vq ≡ some (first, taken vq) = rw more refl in
      let (a, b) =
        some_pair-injective _ _ _ _ (sym (ap seen found) ∙ virtq_pop_used_lem vq c ∙ ap uncons e) in
      (found ∙ ap (λ y. some (y, taken vq)) a, b)
]
  where
    first : VirtqUsedElem
    first = get_or vq.used_ring (vq.consumed_used_index % virtq_entry_num) no_elem

next_round :
    (e : VirtqUsedElem) (n : Net) (es : List VirtqUsedElem)
    → IsCounted n.nic.rx_vq
    → completions (taken n.nic.rx_vq) ≡ es
    → let m = rx_one e (with_rx n (taken n.nic.rx_vq)) in
      IsCounted m.nic.rx_vq × (completions m.nic.rx_vq ≡ es)
next_round e n es c eq =
    let same = rx_one-SameUsed e (with_rx n (taken n.nic.rx_vq)) in
    (
      IsCounted-SameUsed _ _ same (taken-IsCounted n.nic.rx_vq c),
      completions-SameUsed _ _ same ∙ eq,
    )

abbrev pub any_of : List VirtqUsedElem → Bool
any_of [] = false
any_of (x ∷ xs) = true

or_false : (r : Bool) → r ≡ (r || false)
or_false true = refl
or_false false = refl

or_true : (r : Bool) → (r || true) ≡ true
or_true true = refl
or_true false = refl

drain_rx_loop_lem :
    (fuel : ℕ) (r : Bool) (n : Net) (es : List VirtqUsedElem)
    → IsCounted n.nic.rx_vq
    → completions n.nic.rx_vq ≡ es
    → length es < fuel
    → (drain_rx_loop fuel r n ≡ (r || any_of es, handle_all es n))
      × (completions (handle_all es n).nic.rx_vq ≡ [])
unfolding drain_rx_loop
drain_rx_loop_lem zero r n es c eq lt = absurd (omega (arith, lt))
drain_rx_loop_lem (suc fuel) r n [] c eq lt =
    rw (pop_nothing n.nic.rx_vq c eq, drain_rx_loop) (ap (λ b. (b, n)) (or_false r), eq)
drain_rx_loop_lem (suc fuel) r n (e ∷ es) c eq lt =
    let (popped, rest) = pop_first n.nic.rx_vq e es c eq in
    let (c', eq') = next_round e n es c rest in
    let (ran, done) = drain_rx_loop_lem fuel true _ es c' eq' (omega (arith, lt)) in
    rw (popped, drain_rx_loop)
      (
        ran
            ∙ ap (λ b. (b, handle_all es (rx_one e (with_rx n (taken n.nic.rx_vq)))))
                (sym (or_true r)),
        done,
      )

pub length-entries : (ring : List VirtqUsedElem) (k n : ℕ) → length (entries ring k n) ≡ n
length-entries ring k zero = refl
length-entries ring k (suc n) = ap suc (length-entries ring (u16 (k + 1)) n)

-- The driver, told to offer its buffers again where it took a completion.
abbrev pub notified : Bool → Net → Net
notified recycled m =
    if recycled
    then record m { nic = record m.nic { reg_writes = virtq_notify m.nic.rx_vq m.nic.reg_writes } }
    else m

notified-rx_vq :
    (r : Bool) (m : Net) → completions (notified r m).nic.rx_vq ≡ completions m.nic.rx_vq
notified-rx_vq true m = refl
notified-rx_vq false m = refl

-- `virtio_net_drain_rx` handles every waiting completion of the receive queue, oldest first, each
-- taken off the queue before its frame is handled, notifies the device once if there was any, and
-- leaves no completion waiting.
pub drain_rx_lem :
    (n : Net)
    → IsCounted n.nic.rx_vq
    → let es = completions n.nic.rx_vq in
      (drain_rx n ≡ notified (any_of es) (handle_all es n))
      × (completions (drain_rx n).nic.rx_vq ≡ [])
unfolding drain_rx
drain_rx_lem n c =
    let es = completions n.nic.rx_vq in
    let count =
      length-entries n.nic.rx_vq.used_ring n.nic.rx_vq.consumed_used_index (backlog n.nic.rx_vq) in
    let (ran, done) =
      drain_rx_loop_lem (suc (backlog n.nic.rx_vq)) false n es c refl (omega (arith, count)) in
    let eq : drain_rx n ≡ notified (any_of es) (handle_all es n) = ap (λ p. notified p.0 p.1) ran in
    (eq, ap (λ m. completions m.nic.rx_vq) eq ∙ notified-rx_vq (any_of es) (handle_all es n) ∙ done)
