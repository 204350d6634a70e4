-- ===== src/SwapUtils/Batch.antt =====
-- The tick arrays of several swaps, fetched at once (swap-utils.ts).
use mathlib.Core.List.{append-nil, append_assoc, map-append}
use whirlpools.Prelude.{
  ℕ, suc, ◌+◌, ◌-◌, ◌≡◌, refl, ap, sym, ◌∙◌, arith, Option, List, [], ◌∷◌, ◌++◌, map, length,
  length-append, length-map, take-length, drop-length, cons-eq, ℤ,
}
use whirlpools.AnchorTypes.{TickArrayData, TickArray}
use whirlpools.SwapUtils.{
  TickArrayRequest, get_tick_array_public_keys, add_requests, data_at, slice, zip_data,
  get_batch_tick_arrays,
}

between : (a b : ℕ) → a + b - a ≡ b
between a b = omega arith

module _ {Key : Type 0} (get_tick_array : Key → ℤ → Key)
    (read : Key → Option (TickArrayData Key)) where
  -- What one request asks for: its addresses, each with its data.
  abbrev pub arrays_of : TickArrayRequest Key → List (TickArray Key)
  arrays_of r =
      map (λ k. record { address = k; tick_array_data = read k })
        (get_tick_array_public_keys get_tick_array r)

  abbrev all_keys : List (TickArrayRequest Key) → List Key
  all_keys [] = []
  all_keys (r ∷ rs) = get_tick_array_public_keys get_tick_array r ++ all_keys rs

  abbrev slices : ℕ → List (TickArrayRequest Key) → List (ℕ × ℕ)
  slices n [] = []
  slices n (r ∷ rs) =
      (n, n + length (get_tick_array_public_keys get_tick_array r))
      ∷ slices (n + length (get_tick_array_public_keys get_tick_array r)) rs

  add_requests-all :
      (rs : List (TickArrayRequest Key)) (keys : List Key) (indices : List (ℕ × ℕ))
      → add_requests get_tick_array rs keys indices
        ≡ (keys ++ all_keys rs, indices ++ slices (length keys) rs)
  add_requests-all [] keys indices = rw (append-nil keys, append-nil indices) refl
  add_requests-all (r ∷ rs) keys indices =
      let request_keys = get_tick_array_public_keys get_tick_array r in
      let part : ℕ × ℕ = (length keys, length keys + length request_keys) in
      add_requests-all rs (keys ++ request_keys) (indices ++ (part ∷ []))
      ∙ rw
          (
            append_assoc keys request_keys (all_keys rs),
            append_assoc indices (part ∷ []) (slices (length (keys ++ request_keys)) rs),
            length-append keys request_keys,
          )
          refl

  -- A slice of what comes after `before`.
  slice-middle {ℓ} :
      {A : Type ℓ}
      → (n m : ℕ) (before xs after : List A) → n ≡ length before
      → m ≡ length xs
      → slice get_tick_array (n, n + m) (before ++ (xs ++ after)) ≡ xs
  slice-middle n m before xs after n_is m_is =
      rw (between n m, n_is, m_is, drop-length before (xs ++ after)) (take-length xs after)

  zip-tail :
      (i : ℕ) (xs : List Key) (d : Option (TickArrayData Key))
      (ds : List (Option (TickArrayData Key)))
      → zip_data get_tick_array (suc i) xs (d ∷ ds) ≡ zip_data get_tick_array i xs ds
  zip-tail i [] d ds = refl
  zip-tail i (x ∷ xs) d ds =
      ap (λ ts. record { address = x; tick_array_data = data_at get_tick_array ds i } ∷ ts)
        (zip-tail (suc i) xs d ds)

  zip-read :
      (xs : List Key)
      → zip_data get_tick_array 0 xs (map read xs)
        ≡ map (λ k. record { address = k; tick_array_data = read k }) xs
  zip-read [] = refl
  zip-read (x ∷ xs) =
      ap (λ ts. record { address = x; tick_array_data = read x } ∷ ts)
        (zip-tail 0 xs (read x) (map read xs) ∙ zip-read xs)

  -- The slices of the requests, after the addresses of those before them.
  slices-arrays :
      (rs : List (TickArrayRequest Key)) (before : List Key)
      → map
          (λ indices.
            zip_data get_tick_array 0
              (slice get_tick_array indices (before ++ all_keys rs))
              (slice get_tick_array indices (map read (before ++ all_keys rs))))
          (slices (length before) rs)
        ≡ map arrays_of rs
  slices-arrays [] before = refl
  slices-arrays (r ∷ rs) before =
      let keys = get_tick_array_public_keys get_tick_array r in
      let rest = all_keys rs in
      let data_is : map read (before ++ (keys ++ rest))
          ≡ map read before ++ (map read keys ++ map read rest) =
        map-append read before (keys ++ rest)
        ∙ ap (λ zs. map read before ++ zs) (map-append read keys rest) in
      cons-eq
        (rw
          (
            data_is,
            slice-middle (length before) (length keys) before keys rest refl refl,
            slice-middle (length before) (length keys) (map read before) (map read keys)
                (map read rest) (sym (length-map read before)) (sym (length-map read keys)),
          )
          (zip-read keys))
        (rw (length-append before keys, append_assoc before keys rest) at
          (slices-arrays rs (before ++ keys)))

  -- Where the fetcher reads the accounts of the addresses in their order, every request of a batch
  -- gets the addresses that it asks for alone, each with its own data.
  pub get_batch_tick_arrays-each :
      (fetch : List Key → List (Option (TickArrayData Key)))
      → ((keys : List Key) → fetch keys ≡ map read keys)
      → (rs : List (TickArrayRequest Key))
      → get_batch_tick_arrays get_tick_array fetch rs ≡ map arrays_of rs
  unfolding get_batch_tick_arrays
  get_batch_tick_arrays-each fetch reads rs =
      rw (add_requests-all rs [] [], reads (all_keys rs)) (slices-arrays rs [])
