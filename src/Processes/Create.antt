-- ===== src/Processes/Create.antt =====
-- kernel/process.c: what `create_process` makes.
use risc_v_os.Base.{
  ℕ, ◌+◌, ◌-◌, ◌*◌, ◌/◌, ◌%◌, ◌^◌, ◌≤◌, ◌<◌, ◌≡◌, ◌≢◌, ◌⊎◌, inr, refl, sym, ap, ◌∙◌, arith, ok,
  subst, returned, All, List, [], ◌∷◌,
}
use risc_v_os.Memory.{Memory}
use risc_v_os.Allocator.{Heap, page_size}
use risc_v_os.Paging.{Process}
use risc_v_os.Paging.Mapping.{translate}
use risc_v_os.Paging.Tree.{IsTree}
use risc_v_os.Processes.{
  Layout, pages, user_base, stack_size, build_space, map_kernel, map_devices, devices,
}
use risc_v_os.Processes.Range.{
  Grown, Grown-trans, Outside, OffPages, InPages, Kernel-mapped, Devices-mapped, map_kernel-Grown,
  map_devices-Grown, IsDevice,
}
use risc_v_os.Processes.Image.{HasByte, HasImage, load_image-Grown}

-- The layout of kernel.ld and user.ld: the kernel above the devices and below the end of the address
-- space, whole pages; stacks and image in the kernel's own data, below the memory of the allocator,
-- and apart from each other.
pub record IsLaid (lo image image_size : ℕ) (ly : Layout) : Type 0 where
  pub whole : (ly.kernel_base % page_size ≡ 0) × (ly.free_ram_end % page_size ≡ 0)
  pub above_devices : 0x2000_0000 ≤ ly.kernel_base
  pub ordered : ly.kernel_base ≤ ly.free_ram_end
  pub ram : ly.free_ram_end < 2 ^ 32
  pub entry_word : ly.user_entry < 2 ^ 32
  pub image_small : image_size ≤ 0x80_0000
  pub image_below : image + image_size ≤ lo
  pub stacks : (i : ℕ) → (stack_size ≤ ly.stack_top i) × (ly.stack_top i ≤ lo)
  pub stacks_apart :
      (i : ℕ) → (image + image_size ≤ ly.stack_top i - stack_size) ⊎ (ly.stack_top i ≤ image)

-- The registers of the devices: the two of virtio, and three pages of the interrupt controller.
abbrev pub device_pages : List ℕ
device_pages = 0x1000_1000 ∷ 0x1000_2000 ∷ 0x0c00_0000 ∷ 0x0c00_2000 ∷ 0x0c20_1000 ∷ []

-- The address space that `build_space` makes.
pub record Built (lo hi image image_size root : ℕ) (ly : Layout) (m : Memory) (h : Heap)
    : Type 0 where
  pub tree : IsTree lo hi root h
  pub kernel_mapped : Kernel-mapped root ly.kernel_base ly.free_ram_end h.memory
  pub devices_mapped : Devices-mapped root device_pages h.memory
  pub image_loaded : HasImage lo hi image image_size 0 m root image_size h

-- An address that the kernel's memory, the devices and the image leave alone.
abbrev pub Unmapped : ℕ → Layout → ℕ → Type 0
Unmapped image_size ly v =
    Outside ly.kernel_base ly.free_ram_end v
    × OffPages devices v
    × Outside user_base (user_base + pages image_size * page_size) v

-- An address off the devices' pages and the image's.
abbrev Free : ℕ → ℕ → Type 0
Free image_size v =
    OffPages devices v × Outside user_base (user_base + pages image_size * page_size) v

pub devices-IsDevice : All IsDevice devices
devices-IsDevice = omega arith

pub build_space-Built :
    (lo hi image image_size : ℕ) (ly : Layout) (m : Memory) (proc proc' : Process) (h h' : Heap)
    → IsLaid lo image image_size ly
    → IsTree lo hi proc.page_table h
    → ((n : ℕ) → n < image_size → h.memory (image + n) ≡ m (image + n))
    → build_space ly image image_size proc h ≡ ok (proc', h')
    → Built lo hi image image_size proc.page_table ly m h'
      × Grown lo hi (Unmapped image_size ly) proc proc' h h'
unfolding build_space
build_space-Built lo hi image image_size ly m proc proc' h h' laid t low e =
    let ((p, g), first, rest) =
      returned (map_kernel (pages (ly.free_ram_end - ly.kernel_base)) ly.kernel_base proc h) _ _
        e in
    let ((q, k), second, third) = returned (map_devices devices p g) _ _ rest in
    let whole : (ly.kernel_base % page_size ≡ 0) × (ly.free_ram_end % page_size ≡ 0) = laid.whole in
    let above : 0x2000_0000 ≤ ly.kernel_base = laid.above_devices in
    let ordered : ly.kernel_base ≤ ly.free_ram_end = laid.ordered in
    let ram : ly.free_ram_end < 2 ^ 32 = laid.ram in
    let small : image_size ≤ 0x80_0000 = laid.image_small in
    let last : ly.kernel_base + pages (ly.free_ram_end - ly.kernel_base) * page_size
        ≡ ly.free_ram_end =
      omega arith in
    let (a, mapped) =
      map_kernel-Grown lo hi _ ly.kernel_base proc p h g t whole.0 (omega arith) first in
    let (b, devices_mapped) =
      map_devices-Grown lo hi devices p q g k
        (subst (λ r. IsTree lo hi r g) (sym a.same_root) a.keeps.tree) devices-IsDevice second in
    let (c, image_loaded) =
      load_image-Grown lo hi image image_size (pages image_size) 0 k.memory q proc' k h'
        (subst (λ r. IsTree lo hi r k) (sym b.same_root) b.keeps.tree) (λ _ _. refl)
        laid.image_below (omega arith) (omega arith) (omega arith) third in
    let bc =
      Grown-trans lo hi (OffPages devices) _ (Free image_size) p q proc' g k h'
        (λ v s. (s.0, (s.1.0, ground (arith, s.1.1)))) b c in
    let abc =
      Grown-trans lo hi _ (Free image_size) (Unmapped image_size ly) proc p proc' h g h'
        (λ v s. ((s.0.0, ground (arith, s.0.1)), (s.1, s.2))) a bc in
    (
      record {
        tree = abc.keeps.tree;
        kernel_mapped = λ v from to.
            sym (ap (λ r. translate r h'.memory v) a.same_root)
            ∙ bc.keeps.translations v
                ((omega arith, off_devices v (omega arith)), (omega arith, inr (omega arith)))
            ∙ ap (λ r. translate r g.memory v) a.same_root
            ∙ mapped v from (omega arith);
        devices_mapped = λ v bound within.
            sym (ap (λ r. translate r h'.memory v) (b.same_root ∙ a.same_root))
            ∙ c.keeps.translations v (bound, inr (omega (arith, past_image v within)))
            ∙ ap (λ r. translate r k.memory v) (b.same_root ∙ a.same_root)
            ∙ sym (ap (λ r. translate r k.memory v) a.same_root)
            ∙ devices_mapped v bound within;
        image_loaded = λ n from to.
            subst (λ r. HasByte r n (m (image + n)) h') (b.same_root ∙ a.same_root)
              (subst (λ byte. HasByte q.page_table n byte h')
                (b.keeps.low (image + n) (omega arith)
                  ∙ a.keeps.low (image + n) (omega arith)
                  ∙ low n to)
                (image_loaded n from to));
      },
      abc,
    )
  where
    off_devices : (v : ℕ) → 0x2000_0000 ≤ v → All (λ d. v / page_size ≢ d / page_size) devices
    off_devices v from = omega arith

    past_image : (v : ℕ) → InPages devices v → 0x190_0000 ≤ v
    past_image v within = omega (arith, within)
