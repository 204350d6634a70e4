-- ===== src/PriceMath/Range.antt =====
-- The sqrt price of a tick index (price-math.ts): the conversion always returns, and the price is
-- above one, at one or below it as the tick index is.
use native.Mathlib.Nat.{mod-eq_of_lt, div-eq_of_lt, mul-le-mul_right}
use whirlpools.Prelude.{
  ℕ, zero, suc, ◌*◌, ◌/◌, ◌^◌, ◌≤◌, ◌<◌, ◌≡◌, refl, ap, ◌∙◌, arith, Bool, true, false, ◌&&◌,
  Bool-cases, inl, inr, ltb, if◌then◌else◌, min, max, List, [], ◌∷◌, ℤ, pos, negsuc, ◌*ℤ◌, ltb_ℤ,
}
use whirlpools.Prelude.Division.{div_mono}
use whirlpools.Errors.{Result, ok, ◌>>=◌}
use whirlpools.PriceMath.{
  signed_shift_right, has_bit, scale, tick_index_to_sqrt_price_positive,
  tick_index_to_sqrt_price_negative, tick_index_to_sqrt_price_x64,
}

-- The shifts do not reach the sign bit.
shift_96 : (n : ℕ) → n < 2 ^ 255 → signed_shift_right (pos n) 96 256 ≡ ok (pos (n / 2 ^ 96))
unfolding signed_shift_right
shift_96 n h =
    let small : n / 2 ^ 96 < 2 ^ 159 = omega arith in
    rw
      (
        mod-eq_of_lt {n = n / 2 ^ 96} {m = 2 ^ 161} (omega arith),
        div-eq_of_lt {n = n / 2 ^ 96} {m = 2 ^ 159} small,
      )
      refl

shift_64 : (n : ℕ) → n < 2 ^ 255 → signed_shift_right (pos n) 64 256 ≡ ok (pos (n / 2 ^ 64))
unfolding signed_shift_right
shift_64 n h =
    let small : n / 2 ^ 64 < 2 ^ 191 = omega arith in
    rw
      (
        mod-eq_of_lt {n = n / 2 ^ 64} {m = 2 ^ 193} (omega arith),
        div-eq_of_lt {n = n / 2 ^ 64} {m = 2 ^ 191} small,
      )
      refl

shift_32 : (n : ℕ) → n < 2 ^ 255 → signed_shift_right (pos n) 32 256 ≡ ok (pos (n / 2 ^ 32))
unfolding signed_shift_right
shift_32 n h =
    let small : n / 2 ^ 32 < 2 ^ 223 = omega arith in
    rw
      (
        mod-eq_of_lt {n = n / 2 ^ 32} {m = 2 ^ 225} (omega arith),
        div-eq_of_lt {n = n / 2 ^ 32} {m = 2 ^ 223} small,
      )
      refl

-- The steps of the conversion for one list of bits and factors, and what follows them.
abbrev scales : ℕ → ℕ → List (ℕ × ℕ) → (ℤ → Result ℤ) → ℤ → Result ℤ
scales tick k [] last r = last r
scales tick k (x ∷ xs) last r = scale tick k x.0 x.1 r >>= scales tick k xs last

-- Bounds of the ratio after the steps, and whether no product reaches the sign bit.
abbrev low_after : ℕ → List (ℕ × ℕ) → ℕ → ℕ
low_after k [] low = low
low_after k (x ∷ xs) low = low_after k xs (min low (low * x.1 / 2 ^ k))

abbrev high_after : ℕ → List (ℕ × ℕ) → ℕ → ℕ
high_after k [] high = high
high_after k (x ∷ xs) high = high_after k xs (max high (high * x.1 / 2 ^ k))

abbrev products_fit : ℕ → List (ℕ × ℕ) → ℕ → Bool
products_fit k [] high = true
products_fit k (x ∷ xs) high =
    ltb (high * x.1) (2 ^ 255) && products_fit k xs (max high (high * x.1 / 2 ^ k))

first_fits : (a : ℕ) (b : Bool) → (ltb a (2 ^ 255) && b) ≡ true → a < 2 ^ 255
first_fits a b h = ground (arith, h)

second_fits : (a : ℕ) (b : Bool) → (ltb a (2 ^ 255) && b) ≡ true → b ≡ true
second_fits a b h = ground (arith, h)

module _ (tick k : ℕ)
    (shift : (n : ℕ) → n < 2 ^ 255 → signed_shift_right (pos n) k 256 ≡ ok (pos (n / 2 ^ k)))
    (hk : 0 < 2 ^ k) where
  -- A step keeps the ratio between the bounds.
  scale-within :
      (bit factor low high r : ℕ)
      → low ≤ r
      → r ≤ high
      → high * factor < 2 ^ 255
      → (r' : ℕ) × (scale tick k bit factor (pos r) ≡ ok (pos r'))
        × (min low (low * factor / 2 ^ k) ≤ r')
        × (r' ≤ max high (high * factor / 2 ^ k))
  unfolding scale ◌*ℤ◌
  scale-within bit factor low high r above below fits = elim (Bool-cases (has_bit tick bit)) [
    | inl set ↦
        let most : r * factor ≤ high * factor = mul-le-mul_right factor below in
        let least : low * factor ≤ r * factor = mul-le-mul_right factor above in
        let up = div_mono (r * factor) (high * factor) (2 ^ k) hk most in
        let down = div_mono (low * factor) (r * factor) (2 ^ k) hk least in
        (
          r * factor / 2 ^ k,
          rw set (shift (r * factor) (omega arith)),
          omega (arith, down),
          omega (arith, up),
        )
    | inr clear ↦ (r, rw clear refl, omega arith, omega arith)
  ]

  scales-within :
      (xs : List (ℕ × ℕ)) (last : ℤ → Result ℤ) (low high r : ℕ)
      → low ≤ r
      → r ≤ high
      → products_fit k xs high ≡ true
      → (r' : ℕ) × (scales tick k xs last (pos r) ≡ last (pos r'))
        × (low_after k xs low ≤ r')
        × (r' ≤ high_after k xs high)
  scales-within [] last low high r above below fits = (r, refl, above, below)
  scales-within (x ∷ xs) last low high r above below fits =
      let (r', step, above', below') =
        scale-within x.0 x.1 low high r above below (first_fits _ _ fits) in
      let (r'', rest, above'', below'') =
        scales-within xs last (min low (low * x.1 / 2 ^ k)) (max high (high * x.1 / 2 ^ k)) r'
          above' below' (second_fits _ _ fits) in
      (r'', ap (λ (z : Result ℤ). z >>= scales tick k xs last) step ∙ rest, above'', below'')

abbrev positive_steps : List (ℕ × ℕ)
positive_steps =
    (2, 79236085330515764027303304731)
    ∷ (4, 79244008939048815603706035061)
    ∷ (8, 79259858533276714757314932305)
    ∷ (16, 79291567232598584799939703904)
    ∷ (32, 79355022692464371645785046466)
    ∷ (64, 79482085999252804386437311141)
    ∷ (128, 79736823300114093921829183326)
    ∷ (256, 80248749790819932309965073892)
    ∷ (512, 81282483887344747381513967011)
    ∷ (1024, 83390072131320151908154831281)
    ∷ (2048, 87770609709833776024991924138)
    ∷ (4096, 97234110755111693312479820773)
    ∷ (8192, 119332217159966728226237229890)
    ∷ (16384, 179736315981702064433883588727)
    ∷ (32768, 407748233172238350107850275304)
    ∷ (65536, 2098478828474011932436660412517)
    ∷ (131072, 55581415166113811149459800483533)
    ∷ (262144, 38992368544603139932233054999993551)
    ∷ []

abbrev negative_steps : List (ℕ × ℕ)
negative_steps =
    (2, 18444899583751176498)
    ∷ (4, 18443055278223354162)
    ∷ (8, 18439367220385604838)
    ∷ (16, 18431993317065449817)
    ∷ (32, 18417254355718160513)
    ∷ (64, 18387811781193591352)
    ∷ (128, 18329067761203520168)
    ∷ (256, 18212142134806087854)
    ∷ (512, 17980523815641551639)
    ∷ (1024, 17526086738831147013)
    ∷ (2048, 16651378430235024244)
    ∷ (4096, 15030750278693429944)
    ∷ (8192, 12247334978882834399)
    ∷ (16384, 8131365268884726200)
    ∷ (32768, 3584323654723342297)
    ∷ (65536, 696457651847595233)
    ∷ (131072, 26294789957452057)
    ∷ (262144, 37481735321082)
    ∷ []

positive-steps :
    (tick : ℕ)
    → tick_index_to_sqrt_price_positive tick
      ≡ scales tick 96 positive_steps
          (λ r. signed_shift_right r 32 256)
          (if has_bit tick 1
            then pos 79232123823359799118286999567
            else pos 79228162514264337593543950336)
unfolding tick_index_to_sqrt_price_positive
positive-steps tick = refl

negative-steps :
    (tick : ℕ)
    → tick_index_to_sqrt_price_negative tick
      ≡ scales tick 64 negative_steps
          (λ r. ok r)
          (if has_bit tick 1 then pos 18445821805675392311 else pos 18446744073709551616)
unfolding tick_index_to_sqrt_price_negative
negative-steps tick = refl

-- The ratio that the steps start with.
first_ratio :
    (b : Bool) (x y : ℕ)
    → (r : ℕ) × ((if b then pos x else pos y) ≡ pos r) × (min x y ≤ r) × (r ≤ max x y)
first_ratio true x y = (x, refl, omega arith, omega arith)
first_ratio false x y = (y, refl, omega arith, omega arith)

price_positive :
    (tick : ℕ) → (p : ℕ) × (tick_index_to_sqrt_price_positive tick ≡ ok (pos p)) × (2 ^ 64 ≤ p)
price_positive tick =
    let (r0, first, low, high) =
      first_ratio (has_bit tick 1) 79232123823359799118286999567 79228162514264337593543950336 in
    let (r, steps, above, below) =
      scales-within tick 96 shift_96 (omega arith) positive_steps (λ r. signed_shift_right r 32 256)
        (2 ^ 96) 79232123823359799118286999567 r0 low high refl in
    (
      r / 2 ^ 32,
      positive-steps tick
          ∙ ap (scales tick 96 positive_steps (λ r. signed_shift_right r 32 256)) first
          ∙ steps
          ∙ shift_32 r (omega (arith, below)),
      omega (arith, above),
    )

price_negative :
    (tick : ℕ)
    → (p : ℕ) × (tick_index_to_sqrt_price_negative tick ≡ ok (pos p)) × (0 < p) × (p ≤ 2 ^ 64)
price_negative tick =
    let (r0, first, low, high) =
      first_ratio (has_bit tick 1) 18445821805675392311 18446744073709551616 in
    let (r, steps, above, below) =
      scales-within tick 64 shift_64 (omega arith) negative_steps (λ r. ok r) 18445821805675392311
        (2 ^ 64) r0 low high refl in
    (
      r,
      negative-steps tick ∙ ap (scales tick 64 negative_steps (λ r. ok r)) first ∙ steps,
      omega (arith, above),
      omega (arith, below),
    )

zero-ltb : (n : ℕ) → ltb 0 (suc n) ≡ true
zero-ltb n = ground arith

-- The price of every tick index is returned, without an exception: a positive number, at least one
-- (2 ^ 64) where the tick index is above zero, and at most one where it is not.
pub tick_index_to_sqrt_price_x64-returns :
    (tick_index : ℤ)
    → (p : ℕ) × (tick_index_to_sqrt_price_x64 tick_index ≡ ok (pos p))
      × (0 < p)
      × (if ltb_ℤ (pos 0) tick_index then 2 ^ 64 ≤ p else p ≤ 2 ^ 64)
unfolding tick_index_to_sqrt_price_x64
tick_index_to_sqrt_price_x64-returns (pos zero) = price_negative 0
tick_index_to_sqrt_price_x64-returns (pos (suc n)) =
    let (p, p_is, above) = price_positive (suc n) in
    (p, p_is, omega (arith, above), rw (zero-ltb n) above)
tick_index_to_sqrt_price_x64-returns (negsuc n) = price_negative (suc n)
