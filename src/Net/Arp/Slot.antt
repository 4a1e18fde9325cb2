-- ===== src/Net/Arp/Slot.antt =====
-- kernel/arp.c: the entry of the cache that an update writes.
use risc_v_os.Base.{
  ℕ, ◌+◌, ◌≡◌, refl, ap, ◌∙◌, Bool, true, not, Option, none, some, List, [], ◌∷◌, arith,
  if◌then◌else◌, get_or, set, find_index, find_index-some, Bool-cases, inl, inr, next_index,
}
use risc_v_os.Net.Arp.{
  CacheEntry, no_entry, has_ip, Scan, hit, miss, note_free, scan, write_entry, arp_cache_update,
  write_found,
}

abbrev pub is_invalid : CacheEntry → Bool
is_invalid e = not e.valid

abbrev pub entry : List CacheEntry → ℕ → CacheEntry
entry es i = get_or es i no_entry

-- The slot that an update writes: the entry with the address, else the first free one, else the
-- first of all.
abbrev pub free_slot : Option ℕ → ℕ
free_slot none = 0
free_slot (some f) = f

abbrev pub slot_of : Option ℕ → Option ℕ → ℕ
slot_of none free = free_slot free
slot_of (some i) free = i

abbrev pub slot : ℕ → List CacheEntry → ℕ
slot ip es = slot_of (find_index (has_ip ip) es) (find_index is_invalid es)

-- The scan is two searches at once.
abbrev plus : ℕ → Option ℕ → Option ℕ
plus k none = none
plus k (some i) = some (k + i)

abbrev earlier : Option ℕ → Option ℕ → Option ℕ
earlier none o = o
earlier (some f) o = some f

abbrev scanned : ℕ → Option ℕ → Option ℕ → Option ℕ → Scan
scanned k free_index none free = miss (earlier free_index (plus k free))
scanned k free_index (some i) free = hit (k + i)

scanned-next :
    (k : ℕ) (e : CacheEntry) (free_index found free : Option ℕ)
    → scanned (k + 1) (note_free k e free_index) found free
      ≡ scanned k free_index (next_index found) (if is_invalid e then some 0 else next_index free)
scanned-next k e none none none = ground arith
scanned-next k e none none (some f) = ground arith
scanned-next k e (some f) none o = ground arith
scanned-next k e f (some i) o = ground arith

scan_lem :
    (ip k : ℕ) (free_index : Option ℕ) (es : List CacheEntry)
    → scan ip k free_index es
      ≡ scanned k free_index (find_index (has_ip ip) es) (find_index is_invalid es)
unfolding scan find_index
scan_lem ip k none [] = refl
scan_lem ip k (some f) [] = refl
scan_lem ip k free_index (e ∷ es) = elim (Bool-cases (has_ip ip e)) [
  | inl here ↦ rw here (let z : k ≡ k + 0 = omega arith in ap hit z)
  | inr other ↦
      rw other (scan_lem ip (k + 1) (note_free k e free_index) es ∙ scanned-next k e free_index _ _)
]

write_scanned :
    (ip : ℕ) (mac : List ℕ) (es : List CacheEntry) (found free : Option ℕ)
    → find_index (has_ip ip) es ≡ found
    → write_found ip mac es (scanned 0 none found free) ≡ write_entry ip mac (slot_of found free) es
write_scanned ip mac es none none e = refl
write_scanned ip mac es none (some f) e =
    let z : 0 + f ≡ f = omega arith in ap (λ k. write_entry ip mac k es) z
write_scanned ip mac es (some i) free e =
    let z : 0 + i ≡ i = omega arith in
    let at : has_ip ip (entry es i) ≡ true = (find_index-some (has_ip ip) es no_entry i e).1 in
    rw z (ap (set es i) (ground (arith, at)))

-- An update writes one entry, in its slot.
pub arp_cache_update-eq :
    (ip : ℕ) (mac : List ℕ) (es : List CacheEntry)
    → arp_cache_update ip mac es ≡ write_entry ip mac (slot ip es) es
unfolding arp_cache_update
arp_cache_update-eq ip mac es =
    ap (write_found ip mac es) (scan_lem ip 0 none es) ∙ write_scanned ip mac es _ _ refl
