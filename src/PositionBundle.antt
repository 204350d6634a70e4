-- ===== src/PositionBundle.antt =====
-- utils/public/position-bundle-util.ts: the bitmap of a position bundle.
pub mod Indexes
use Prim.Native.Nat.{bit_and}
use whirlpools.Prelude.{
  ℕ, zero, suc, ◌*◌, ◌^◌, ◌==◌, Bool, true, false, not, ◌&&◌, if◌then◌else◌, Option, none, some,
  List, [], ◌∷◌, ◌++◌, length, ℤ, pos, leb_ℤ, ltb_ℤ,
}
use whirlpools.Errors.{Result, ok, ◌>>=◌, ◌>>◌, invariant}
use whirlpools.Constants.{position_bundle_size}
use whirlpools.TickArraySequence.{elem_at}

-- The bytes of the bitmap are `u8`.
pub record PositionBundleData (Key : Type 0) : Type 0 where
  pub position_bundle_mint : Key
  pub position_bitmap : List ℕ

abbrev pub check_bundle_index_in_bounds : ℤ → Bool
check_bundle_index_in_bounds bundle_index =
    leb_ℤ (pos 0) bundle_index && ltb_ℤ bundle_index (pos position_bundle_size)

-- `(bitmap & (1 << offset)) !== 0`
abbrev pub bit_of : ℕ → ℕ → Bool
bit_of bitmap offset = not (bit_and bitmap (2 ^ offset) == 0)

abbrev pub bits_of : ℕ → List Bool
bits_of bitmap =
    bit_of bitmap 0
    ∷ bit_of bitmap 1
    ∷ bit_of bitmap 2
    ∷ bit_of bitmap 3
    ∷ bit_of bitmap 4
    ∷ bit_of bitmap 5
    ∷ bit_of bitmap 6
    ∷ bit_of bitmap 7
    ∷ []

abbrev pub bytes_to_array : List ℕ → List Bool
bytes_to_array [] = []
bytes_to_array (bitmap ∷ rest) = bits_of bitmap ++ bytes_to_array rest

-- The indexes, from `index` on, where the array has `value`.
abbrev pub indexes_of : Bool → ℕ → List Bool → List ℕ
indexes_of value index [] = []
indexes_of value index (occupied ∷ rest) =
    if (if value then occupied else not occupied)
    then index ∷ indexes_of value (suc index) rest
    else indexes_of value (suc index) rest

abbrev pub first_of : List ℕ → Option ℕ
first_of [] = none
first_of (index ∷ rest) = some index

-- `!` takes a missing value for false.
abbrev pub negated : Option Bool → Bool
negated none = true
negated (some b) = not b

module _ {Key : Type 0} where
  unfoldable pub convert_bitmap_to_array : PositionBundleData Key → List Bool
  convert_bitmap_to_array bundle = bytes_to_array bundle.position_bitmap

  -- A read past the end of the bitmap is `none`.
  unfoldable pub is_occupied : PositionBundleData Key → ℤ → Result (Option Bool)
  is_occupied bundle bundle_index = do
    invariant (check_bundle_index_in_bounds bundle_index)
    ok (elem_at (convert_bitmap_to_array bundle) bundle_index)

  unfoldable pub is_unoccupied : PositionBundleData Key → ℤ → Result Bool
  is_unoccupied bundle bundle_index = is_occupied bundle bundle_index >>= λ b. ok (negated b)

  unfoldable pub get_occupied_bundle_indexes : PositionBundleData Key → List ℕ
  get_occupied_bundle_indexes bundle = indexes_of true 0 (convert_bitmap_to_array bundle)

  unfoldable pub get_unoccupied_bundle_indexes : PositionBundleData Key → List ℕ
  get_unoccupied_bundle_indexes bundle = indexes_of false 0 (convert_bitmap_to_array bundle)

  unfoldable pub is_full : PositionBundleData Key → Bool
  is_full bundle = length (get_unoccupied_bundle_indexes bundle) == 0

  unfoldable pub is_empty : PositionBundleData Key → Bool
  is_empty bundle = length (get_occupied_bundle_indexes bundle) == 0

  unfoldable pub find_unoccupied_bundle_index : PositionBundleData Key → Option ℕ
  find_unoccupied_bundle_index bundle = first_of (get_unoccupied_bundle_indexes bundle)
