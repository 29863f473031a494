-- ===== src/Storage/Order.antt =====
-- What `enumerate` offers, and in which order.
use flipperos_installer.Base.{
  ℕ, ◌≤◌, ◌≡◌, refl, inl, inr, true, false, List, [], ◌∷◌, All, map, filter, arith, Bool-cases,
}
use flipperos_installer.Storage.{
  boot_rom_capable, is_removable, StorageDevice, BlockEntry, is_candidate, to_device, comes_before,
  insert_device, sort_devices, enumerate,
}

-- Nothing that the boot ROM can boot from stands behind something it cannot boot from.
abbrev pub CapableFirst : List StorageDevice → Type 0
CapableFirst [] = Unit {0}
CapableFirst (d ∷ ds) =
    (boot_rom_capable d.kind ≡ false → All (λ e. boot_rom_capable e.kind ≡ false) ds)
    × CapableFirst ds

-- A device of the list has the least size, and is removable exactly when its class is.
pub record IsOffer (min_size : ℕ) (d : StorageDevice) : Type 0 where
  pub large : min_size ≤ d.size_bytes
  pub present : 1 ≤ d.size_bytes
  pub by_class : d.removable ≡ is_removable d.kind

insert_device-All :
    (P : StorageDevice → Type 0) (d : StorageDevice) (ds : List StorageDevice)
    → P d
    → All P ds
    → All P (insert_device d ds)
unfolding insert_device
insert_device-All P d [] p a = (p, tt)
insert_device-All P d (e ∷ es) p a = elim (Bool-cases (comes_before d e)) [
  | inl b ↦ rw b (p, a)
  | inr b ↦ rw b (a.0, insert_device-All P d es p a.1)
]

insert_device-CapableFirst :
    (d : StorageDevice) (ds : List StorageDevice)
    → CapableFirst ds
    → CapableFirst (insert_device d ds)
unfolding insert_device comes_before
insert_device-CapableFirst d [] c = ((λ i. tt), tt)
insert_device-CapableFirst d (e ∷ es) c = elim (Bool-cases (comes_before d e)) [
  | inl b ↦ rw b ((λ i. let q : boot_rom_capable e.kind ≡ false = ground arith in (q, c.0 q)), c)
  | inr b ↦ rw b (
    (λ i. insert_device-All (λ x. boot_rom_capable x.kind ≡ false) d es (ground arith) (c.0 i)),
    insert_device-CapableFirst d es c.1,
  )
]

sort_devices-CapableFirst : (ds : List StorageDevice) → CapableFirst (sort_devices ds)
unfolding sort_devices
sort_devices-CapableFirst [] = tt
sort_devices-CapableFirst (d ∷ ds) =
    insert_device-CapableFirst d (sort_devices ds) (sort_devices-CapableFirst ds)

sort_devices-All :
    (P : StorageDevice → Type 0) (ds : List StorageDevice) → All P ds → All P (sort_devices ds)
unfolding sort_devices
sort_devices-All P [] a = tt
sort_devices-All P (d ∷ ds) a =
    insert_device-All P d (sort_devices ds) a.0 (sort_devices-All P ds a.1)

candidate_lem : (n : ℕ) (e : BlockEntry) → is_candidate n e ≡ true → IsOffer n (to_device e)
unfolding is_candidate to_device
candidate_lem n e h = record { large = ground arith; present = ground arith; by_class = refl }

candidates-IsOffer :
    (n : ℕ) (es : List BlockEntry) → All (IsOffer n) (map to_device (filter (is_candidate n) es))
candidates-IsOffer n [] = tt
candidates-IsOffer n (e ∷ es) = elim (Bool-cases (is_candidate n e)) [
  | inl b ↦ rw b (candidate_lem n e b, candidates-IsOffer n es)
  | inr b ↦ rw b (candidates-IsOffer n es)
]

-- Every device that `enumerate` offers has the least size and is not empty, and is removable
-- exactly when its class is; those that the boot ROM can boot from come first.
pub enumerate-CapableFirst :
    (min_size : ℕ) (entries : List BlockEntry)
    → All (IsOffer min_size) (enumerate min_size entries)
      × CapableFirst (enumerate min_size entries)
unfolding enumerate
enumerate-CapableFirst n es =
    (sort_devices-All (IsOffer n) _ (candidates-IsOffer n es), sort_devices-CapableFirst _)
