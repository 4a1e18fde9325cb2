-- ===== src/Net/Arp/Cache.antt =====
-- kernel/arp.c: the cache as a map from addresses to hardware addresses.
use risc_v_os.Base.{
  ℕ, ◌<◌, ◌≡◌, refl, sym, ap, ◌∙◌, true, false, Option, none, some, List, arith, ◌==◌,
  if◌then◌else◌, take, length, length-set, get_or-set_self, get_or-set_ne, find_index,
  find_index-eq, find_index-ext, find_index-some, find_index-none, find_index-none_at,
  get_or-set_view, find_index_first, Option-cases, Bool-cases, inl, inr, ◌≢◌, ==→eq, ==-ne, ==-refl,
}
use risc_v_os.Net.Arp.{
  CacheEntry, no_entry, has_ip, write_entry, arp_cache_update, arp_lookup, mac_of, arp_cache_size,
}
use risc_v_os.Net.Arp.Slot.{is_invalid, entry, slot_of, slot, arp_cache_update-eq}

-- No address is in two entries.
abbrev pub IsKeyed : List CacheEntry → Type 0
IsKeyed es = (ip i j : ℕ) → has_ip ip (entry es i) ≡ true → has_ip ip (entry es j) ≡ true → i ≡ j

module _ (ip : ℕ) (es : List CacheEntry) (len : length es ≡ arp_cache_size) where
  slot_of-lt :
      (found free : Option ℕ)
      → find_index (has_ip ip) es ≡ found
      → find_index is_invalid es ≡ free
      → slot_of found free < length es
  slot_of-lt none none e f = omega arith
  slot_of-lt none (some i) e f = (find_index-some is_invalid es no_entry i f).0
  slot_of-lt (some i) free e f = (find_index-some (has_ip ip) es no_entry i e).0

  pub slot-lt : slot ip es < length es
  slot-lt = slot_of-lt _ _ refl refl

-- No entry in front of the slot has the address.
slot_of-first :
    (ip : ℕ) (es : List CacheEntry) (found free : Option ℕ) (k : ℕ)
    → find_index (has_ip ip) es ≡ found
    → k < slot_of found free
    → has_ip ip (entry es k) ≡ false
slot_of-first ip es none free k e lt = find_index-none_at (has_ip ip) es no_entry e refl k
slot_of-first ip es (some i) free k e lt = find_index_first (has_ip ip) es no_entry i k e lt

module _ (ip : ℕ) (mac : List ℕ) (es : List CacheEntry) (len : length es ≡ arp_cache_size) where
  abbrev written : CacheEntry
  written = record { valid = true; ip = ip; mac = take 6 mac }

  abbrev es' : List CacheEntry
  es' = write_entry ip mac (slot ip es) es

  at_slot : entry es' (slot ip es) ≡ written
  at_slot = get_or-set_self es (slot ip es) written no_entry (slot-lt ip es len)

  off_slot : (k : ℕ) → k ≢ slot ip es → entry es' k ≡ entry es k
  off_slot k ne = get_or-set_ne es (slot ip es) k written no_entry (λ e. ne (sym e))

  found_new : find_index (has_ip ip) es' ≡ some (slot ip es)
  found_new =
      find_index-eq (has_ip ip) es' no_entry (slot ip es)
        (omega (arith, slot-lt ip es len, length-set es (slot ip es) written))
        (rw at_slot (==-refl ip))
        (λ k lt. rw (off_slot k (omega arith)) (slot_of-first ip es _ _ k refl lt))

  -- The address that was updated.
  lookup_self : arp_lookup ip (arp_cache_update ip mac es) ≡ some (take 6 mac)
  unfolding arp_lookup
  lookup_self = rw (arp_cache_update-eq ip mac es, found_new) (ap (λ e. some e.mac) at_slot)

  module _ (j : ℕ) (ne : j ≢ ip) where
    not_written : has_ip j written ≡ false
    not_written = ==-ne ip j (λ e. ne (sym e))

    mac_kept :
        (found : Option ℕ)
        → find_index (has_ip j) es ≡ found
        → has_ip j (entry es (slot ip es)) ≡ false
        → mac_of es' found ≡ mac_of es found
    mac_kept none e idle = refl
    mac_kept (some i) e idle = ap (λ x. some x.mac) (off_slot i apart)
      where
        apart : i ≢ slot ip es
        apart same = ground (
          arith,
          (find_index-some (has_ip j) es no_entry i e).1,
          ap (λ k. has_ip j (entry es k)) same,
        )

    -- Another address whose entry was not in the slot.
    lookup_kept :
        has_ip j (entry es (slot ip es)) ≡ false
        → arp_lookup j (arp_cache_update ip mac es) ≡ arp_lookup j es
    unfolding arp_lookup
    lookup_kept idle =
        rw (arp_cache_update-eq ip mac es) (ap (mac_of es') found ∙ mac_kept _ refl idle)
      where
        found : find_index (has_ip j) es' ≡ find_index (has_ip j) es
        found = find_index-ext (has_ip j) es' es no_entry (length-set es (slot ip es) written) λ k.
            get_or-set_view (has_ip j) es (slot ip es) k written no_entry (not_written ∙ sym idle)

    no_second :
        IsKeyed es
        → has_ip j (entry es (slot ip es)) ≡ true
        → (i : ℕ) → has_ip j (entry es' i) ≡ true
        → ⊥
    no_second keyed there i hit_i = elim (Bool-cases (i == slot ip es)) [
      | inl same ↦ ground (
        arith,
        not_written,
        ap (λ e. has_ip j e) at_slot,
        ap (λ k. has_ip j (entry es' k)) (==→eq _ _ same),
      )
      | inr other ↦
          let apart : i ≢ slot ip es = ground arith in
          apart (keyed j i (slot ip es) (rw (off_slot i apart) at hit_i) there)
    ]

    -- The address whose entry made room.
    lookup_evicted :
        IsKeyed es
        → has_ip j (entry es (slot ip es)) ≡ true
        → arp_lookup j (arp_cache_update ip mac es) ≡ none
    unfolding arp_lookup
    lookup_evicted keyed there =
        rw (arp_cache_update-eq ip mac es) (elim (Option-cases (find_index (has_ip j) es')) [
          | inl gone ↦ rw gone
          | inr (i, e) ↦
              absurd (no_second keyed there i (find_index-some (has_ip j) es' no_entry i e).1)
        ])

-- After an update the cache maps the address to the new hardware address. Every other address is
-- mapped as before, but the one whose entry was in the slot, which is mapped to nothing.
pub arp_lookup-arp_cache_update :
    (ip j : ℕ) (mac : List ℕ) (es : List CacheEntry)
    → length es ≡ arp_cache_size
    → IsKeyed es
    → arp_lookup j (arp_cache_update ip mac es) ≡ (
        if j == ip
        then some (take 6 mac)
        else if has_ip j (entry es (slot ip es))
        then none
        else arp_lookup j es)
arp_lookup-arp_cache_update ip j mac es len keyed = elim (Bool-cases (j == ip)) [
  | inl same ↦ rw same (rw (==→eq j ip same) (lookup_self ip mac es len))
  | inr other ↦ rw other (elim (Bool-cases (has_ip j (entry es (slot ip es)))) [
    | inl there ↦ rw there (lookup_evicted ip mac es len j (ground arith) keyed there)
    | inr idle ↦ rw idle (lookup_kept ip mac es len j (ground arith) idle)
  ])
]

-- Another address loses its entry only where the cache is full, and only the first entry.
pub eviction_when_full :
    (ip j : ℕ) (es : List CacheEntry)
    → j ≢ ip
    → has_ip j (entry es (slot ip es)) ≡ true
    → (slot ip es ≡ 0) × ((k : ℕ) → k < length es → (entry es k).valid ≡ true)
eviction_when_full ip j es ne there = by_slot _ _ refl refl there
  where
    by_slot :
        (found free : Option ℕ)
        → find_index (has_ip ip) es ≡ found
        → find_index is_invalid es ≡ free
        → has_ip j (entry es (slot_of found free)) ≡ true
        → (slot_of found free ≡ 0) × ((k : ℕ) → k < length es → (entry es k).valid ≡ true)
    by_slot none none e f h =
        (refl, λ k lt. ground (arith, find_index-none is_invalid es no_entry f k lt))
    by_slot none (some i) e f h =
        absurd (ground (arith, (find_index-some is_invalid es no_entry i f).1))
    by_slot (some i) free e f h =
        absurd (ground (arith, (find_index-some (has_ip ip) es no_entry i e).1))

slot_of-own :
    (ip k : ℕ) (es : List CacheEntry) (found free : Option ℕ)
    → IsKeyed es
    → find_index (has_ip ip) es ≡ found
    → has_ip ip (entry es k) ≡ true
    → k ≡ slot_of found free
slot_of-own ip k es none free keyed e h =
    absurd (ground (arith, find_index-none_at (has_ip ip) es no_entry e refl k))
slot_of-own ip k es (some i) free keyed e h =
    keyed ip k i h (find_index-some (has_ip ip) es no_entry i e).1

-- An entry that shares its address with the one just written is that one.
only_slot :
    (ip : ℕ) (mac : List ℕ) (es : List CacheEntry) (len : length es ≡ arp_cache_size)
    → IsKeyed es
    → (a k i : ℕ) → has_ip a (entry (es' ip mac es len) k) ≡ true
    → has_ip a (entry (es' ip mac es len) i) ≡ true
    → k ≢ slot ip es
    → i ≡ slot ip es
    → k ≡ i
only_slot ip mac es len keyed a k i hit_k hit_i ne at =
    slot_of-own ip k es _ _ keyed refl own ∙ sym at
  where
    same_ip : ip ≡ a
    same_ip =
        ground (arith, at_slot ip mac es len, ap (λ x. has_ip a (entry (es' ip mac es len) x)) at)

    own : has_ip ip (entry es k) ≡ true
    own = rw (off_slot ip mac es len k ne, ← same_ip) at hit_k

-- An update keeps the size of the cache, and no address is in two entries.
pub arp_cache_update-IsKeyed :
    (ip : ℕ) (mac : List ℕ) (es : List CacheEntry)
    → length es ≡ arp_cache_size
    → IsKeyed es
    → IsKeyed (arp_cache_update ip mac es) × (length (arp_cache_update ip mac es) ≡ arp_cache_size)
arp_cache_update-IsKeyed ip mac es len keyed = rw (arp_cache_update-eq ip mac es) (
  λ a i k hit_i hit_k. elim (Bool-cases (i == slot ip es)) [
    | inl at_i ↦ elim (Bool-cases (k == slot ip es)) [
      | inl at_k ↦ ground arith
      | inr off_k ↦
          sym (only_slot ip mac es len keyed a k i hit_k hit_i (ground arith) (==→eq _ _ at_i))
    ]
    | inr off_i ↦ elim (Bool-cases (k == slot ip es)) [
      | inl at_k ↦ only_slot ip mac es len keyed a i k hit_i hit_k (ground arith) (==→eq _ _ at_k)
      | inr off_k ↦
          keyed a i k (rw (off_slot ip mac es len i (ground arith)) at hit_i)
            (rw (off_slot ip mac es len k (ground arith)) at hit_k)
    ]
  ],
  length-set es (slot ip es) (written ip mac es len) ∙ len,
)
