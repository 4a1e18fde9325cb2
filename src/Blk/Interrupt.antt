-- ===== src/Blk/Interrupt.antt =====
-- kernel/virtio_blk.c: the interrupt handler, and the wait of a request.
use Prim.Native.Nat.{bit_and}
use risc_v_os.Base.{
  ℕ, suc, zero, ◌+◌, ◌^◌, ◌<◌, ◌≡◌, ◌≢◌, refl, sym, ap, ◌∙◌, Bool, true, false, not, ◌||◌, Option,
  none, some, List, [], ◌∷◌, ◌++◌, ◌==◌, ==-ne, arith, if◌then◌else◌, All,
}
use risc_v_os.Base.Word.{u16}
use risc_v_os.Virtio.{Virtq}
use risc_v_os.Virtio.Used.{IsCounted, backlog}
use risc_v_os.Virtio.Pop.{taken, taken-IsCounted, pop_next, pop_none}
use risc_v_os.Blk.{Blk, BlkRound, pop_all, virtio_blk_irq, device_writes, interrupt, wait_for_done}

-- The queue with every completion taken.
abbrev pub emptied : Virtq → Virtq
emptied vq = record vq { consumed_used_index = vq.used_index }

or_true : (b : Bool) → (b || true) ≡ true
or_true true = refl
or_true false = refl

or_false : (b : Bool) → (b || false) ≡ b
or_false true = refl
or_false false = refl

drained :
    (k : ℕ) (completed : Bool) (vq : Virtq)
    → IsCounted vq
    → backlog vq ≡ k
    → pop_all (suc k) completed vq ≡ (completed || not (k == 0), emptied vq)
unfolding pop_all
drained zero completed vq c e =
    let same : vq.consumed_used_index ≡ vq.used_index = ground (arith, c) in
    rw (pop_none vq c e, pop_all)
      (ap (λ b. (b, vq)) (sym (or_false completed))
        ∙ ap (λ i. (completed || false, record vq { consumed_used_index = i })) same)
drained (suc k) completed vq c e =
    let (popped, rest) = pop_next vq k c e in
    rw (popped, pop_all)
      (drained k true (taken vq) (taken-IsCounted vq c) rest
        ∙ ap (λ b. (b, emptied vq)) (sym (or_true completed))
        ∙ ap (λ z. (completed || not z, emptied vq)) (sym (==-ne (suc k) 0 (omega arith))))

abbrev pub acked : ℕ → Blk → Blk
acked status b = record b {
  reg_writes = if status == 0 then b.reg_writes else (0x64, status) ∷ b.reg_writes;
}

completed_by : Bool × Virtq → Blk → Blk
completed_by popped b = record b { request_vq = popped.1; done = b.done || popped.0 }

-- A status that does not name the queue is acknowledged, if it is not zero, and that is all.
pub virtio_blk_irq_ignores :
    (status : ℕ) (b : Blk) → bit_and status 1 ≡ 0 → virtio_blk_irq status b ≡ acked status b
unfolding virtio_blk_irq
virtio_blk_irq_ignores status b bit =
    ap
      (λ v. if v == 0 then acked status b else record (acked status b) {
        request_vq =
            (pop_all (suc (backlog (acked status b).request_vq)) false
              (acked status b).request_vq).1;
        done =
            (acked status b).done
            || (pop_all (suc (backlog (acked status b).request_vq)) false
                (acked status b).request_vq).0;
      })
      bit

-- The handler acknowledges the status; where it names the queue, every completion is taken off it,
-- and the waiting request is told if there was any.
pub virtio_blk_irq_lem :
    (status : ℕ) (b : Blk)
    → bit_and status 1 ≡ 1
    → IsCounted b.request_vq
    → virtio_blk_irq status b ≡ record b {
      reg_writes = (0x64, status) ∷ b.reg_writes;
      request_vq = emptied b.request_vq;
      done = b.done || not (backlog b.request_vq == 0);
    }
unfolding virtio_blk_irq completed_by
virtio_blk_irq_lem status b bit c =
    ap
      (λ v.
        if v == 0 then acked status b else completed_by (popped (acked status b)) (acked status b))
      bit
    ∙ ap
        (λ z.
          let a : Blk = record b {
            reg_writes = if z then b.reg_writes else (0x64, status) ∷ b.reg_writes;
          } in
          completed_by (popped a) a)
        (==-ne status 0 nonzero)
    ∙ ap (λ p. completed_by p (record b { reg_writes = (0x64, status) ∷ b.reg_writes }))
        (drained (backlog b.request_vq) false b.request_vq c refl)
  where
    popped : Blk → Bool × Virtq
    popped a = pop_all (suc (backlog a.request_vq)) false a.request_vq

    nonzero : status ≢ 0
    nonzero e =
        let bad : bit_and 0 1 ≡ 1 = sym (ap (λ s. bit_and s 1) e) ∙ bit in absurd (omega arith)

-- A round that reports nothing: its status does not name the queue, and the used index stays.
pub record IsQuiet (index : ℕ) (r : BlkRound) : Type 0 where
  pub silent : bit_and r.status 1 ≡ 0
  pub same_index : u16 r.used_index ≡ index

-- The round that completes the request.
pub record IsFinal (index : ℕ) (r : BlkRound) : Type 0 where
  pub names_queue : bit_and r.status 1 ≡ 1
  pub one_more : u16 r.used_index ≡ u16 (index + 1)

-- A queue whose completions the driver has all taken, `index` of them.
pub record IsIdle (index : ℕ) (vq : Virtq) : Type 0 where
  pub used : vq.used_index ≡ index
  pub consumed : vq.consumed_used_index ≡ index
  pub word : index < 2 ^ 16

-- What the driver has when the request is done: every completion taken, and the device's data and
-- status in the buffer.
pub record IsDone (index : ℕ) (r : BlkRound) (b c : Blk) : Type 0 where
  pub idle : IsIdle (u16 (index + 1)) c.request_vq
  pub data_there : c.sector_data ≡ r.sector_data
  pub status_there : c.request_status ≡ r.request_status
  pub same_capacity : c.capacity ≡ b.capacity
  pub same_descs : c.request_vq.descs ≡ b.request_vq.descs
  pub same_avail : c.request_vq.avail_ring ≡ b.request_vq.avail_ring

-- The driver once it has handled the final round.
abbrev handled : BlkRound → Blk → Blk
handled r b = record (device_writes r b) {
  reg_writes = (0x64, r.status) ∷ b.reg_writes;
  request_vq = emptied (device_writes r b).request_vq;
  done = true;
}

final_round :
    (index : ℕ) (r : BlkRound) (b : Blk)
    → IsIdle index b.request_vq
    → IsFinal index r
    → interrupt r b ≡ handled r b
final_round index r b i f =
    virtio_blk_irq_lem r.status (device_writes r b) f.names_queue
      (record { used_u16 = omega arith; consumed_u16 = omega (arith, i.consumed, i.word) })
    ∙ ap (λ z. record (handled r b) { done = b.done || not z })
        (==-ne (backlog (device_writes r b).request_vq) 0
          (omega (arith, i.consumed, i.word, f.one_more)))
    ∙ ap (λ d. record (handled r b) { done = d }) (or_true b.done)

-- The wait ends with the final round, whatever quiet rounds come before it.
pub wait_for_done_lem :
    (index : ℕ) (quiet : List BlkRound) (r : BlkRound) (b : Blk)
    → IsIdle index b.request_vq
    → b.done ≡ false
    → All (IsQuiet index) quiet
    → IsFinal index r
    → (c : Blk) × (wait_for_done (quiet ++ (r ∷ [])) b ≡ some c) × IsDone index r b c
unfolding wait_for_done
wait_for_done_lem index [] r b i waiting quiet f = (
  handled r b,
  ap (λ d. if d then some b else finally (interrupt r b)) waiting
      ∙ ap finally (final_round index r b i f),
  record {
    idle = record { used = f.one_more; consumed = f.one_more; word = omega arith };
    data_there = refl;
    status_there = refl;
    same_capacity = refl;
    same_descs = refl;
    same_avail = refl;
  },
)
  where
    finally : Blk → Option Blk
    finally c = if c.done then some c else none
wait_for_done_lem index (q ∷ qs) r b i waiting (now, quiet) f =
    let e = virtio_blk_irq_ignores q.status (device_writes q b) now.silent in
    let (c, waited, d) =
      wait_for_done_lem index qs r (acked q.status (device_writes q b))
        (record { used = now.same_index; consumed = i.consumed; word = i.word }) waiting quiet f in
    (
      c,
      ap (λ d. if d then some b else wait_for_done (qs ++ (r ∷ [])) (interrupt q b)) waiting
          ∙ ap (wait_for_done (qs ++ (r ∷ []))) e
          ∙ waited,
      record {
        idle = d.idle;
        data_there = d.data_there;
        status_there = d.status_there;
        same_capacity = d.same_capacity;
        same_descs = d.same_descs;
        same_avail = d.same_avail;
      },
    )
