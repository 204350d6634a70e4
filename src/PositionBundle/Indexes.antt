-- ===== src/PositionBundle/Indexes.antt =====
-- The occupied and the unoccupied indexes of a position bundle (position-bundle-util.ts).
use whirlpools.Prelude.{
  ℕ, suc, ◌+◌, ◌*◌, ◌<◌, ◌==◌, ◌≡◌, refl, ap, ◌∙◌, arith, Bool, true, false, some, List, [], ◌∷◌,
  length, get_elem?, pos,
}
use whirlpools.Errors.{ok}
use whirlpools.PositionBundle.{
  PositionBundleData, bytes_to_array, indexes_of, first_of, convert_bitmap_to_array, is_occupied,
  get_occupied_bundle_indexes, get_unoccupied_bundle_indexes, is_full, find_unoccupied_bundle_index,
}

length-bytes_to_array : (bytes : List ℕ) → length (bytes_to_array bytes) ≡ 8 * length bytes
length-bytes_to_array [] = refl
length-bytes_to_array (b ∷ bs) = omega (arith, length-bytes_to_array bs)

length-indexes_of :
    (i : ℕ) (bs : List Bool)
    → length (indexes_of true i bs) + length (indexes_of false i bs) ≡ length bs
length-indexes_of i [] = refl
length-indexes_of i (true ∷ bs) = omega (arith, length-indexes_of (suc i) bs)
length-indexes_of i (false ∷ bs) = omega (arith, length-indexes_of (suc i) bs)

-- The first index that is not occupied.
first_free :
    (i : ℕ) (bs : List Bool) {n : ℕ}
    → first_of (indexes_of false i bs) ≡ some n
    → (k : ℕ) × (n ≡ i + k) × (get_elem? bs k ≡ some false) × (k < length bs)
first_free i [] h = cc
first_free i (true ∷ bs) h =
    let (k, n_is, free, lt) = first_free (suc i) bs h in
    (suc k, omega (arith, n_is), free, omega (arith, lt))
first_free i (false ∷ bs) h = (0, ground arith, refl, omega arith)

not_empty : (xs : List ℕ) {n : ℕ} → first_of xs ≡ some n → (length xs == 0) ≡ false
not_empty [] h = cc
not_empty (x ∷ xs) h = ground arith

module _ {Key : Type 0} where
  -- The occupied and the unoccupied indexes of a bundle are together as many as the bits of its
  -- bitmap.
  pub bundle_indexes-add_up :
      (bundle : PositionBundleData Key)
      → length (get_occupied_bundle_indexes bundle) + length (get_unoccupied_bundle_indexes bundle)
        ≡ 8 * length bundle.position_bitmap
  unfolding get_occupied_bundle_indexes get_unoccupied_bundle_indexes convert_bitmap_to_array
  bundle_indexes-add_up bundle =
      length-indexes_of 0 (bytes_to_array bundle.position_bitmap)
      ∙ length-bytes_to_array bundle.position_bitmap

  -- In a bitmap of 32 bytes, an index that is found to be unoccupied is in bounds and is read as
  -- not occupied, and the bundle is not full.
  pub find_unoccupied_bundle_index-free :
      (bundle : PositionBundleData Key) (n : ℕ)
      → length bundle.position_bitmap ≡ 32
      → find_unoccupied_bundle_index bundle ≡ some n
      → (n < 256) × (is_occupied bundle (pos n) ≡ ok (some false)) × (is_full bundle ≡ false)
  unfolding find_unoccupied_bundle_index is_occupied is_full get_unoccupied_bundle_indexes
      convert_bitmap_to_array
  find_unoccupied_bundle_index-free bundle n size found =
      let (k, n_is, free, lt) = first_free 0 (bytes_to_array bundle.position_bitmap) found in
      let small : n < 256 =
        omega (arith, n_is, lt, size, length-bytes_to_array bundle.position_bitmap) in
      let same : n ≡ k = omega (arith, n_is) in
      let at_n : get_elem? (bytes_to_array bundle.position_bitmap) n ≡ some false =
        ap (get_elem? (bytes_to_array bundle.position_bitmap)) same ∙ free in
      (
        small,
        rw at_n (ground arith),
        not_empty (indexes_of false 0 (bytes_to_array bundle.position_bitmap)) found,
      )
