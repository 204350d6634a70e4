-- ===== src/PriceMath.antt =====
-- utils/public/price-math.ts: the sqrt price of a tick index and the tick index of a sqrt price.
-- A tick index is far below 2 ^ 31, so `&` is that of the natural numbers.
pub mod Range
pub mod Tests
use Prim.Native.Nat.{bit_and}
use whirlpools.Prelude.{
  ℕ, zero, suc, ◌+◌, ◌-◌, ◌*◌, ◌/◌, ◌^◌, ◌==◌, leb, Bool, if◌then◌else◌, ◌||◌, ℤ, pos, negsuc, ◌+ℤ◌,
  ◌-ℤ◌, ◌*ℤ◌, ltb_ℤ, leb_ℤ, eqb_ℤ,
}
use whirlpools.Errors.{plain, assertion, Result, ok, err, ◌>>=◌, ◌>>◌, throw_if}
use whirlpools.Bn.{to_twos, from_twos, maskn, bit_length, shrn, shln}
use whirlpools.Constants.{max_sqrt_price, min_sqrt_price}

unfoldable pub signed_shift_left : ℤ → ℕ → ℕ → Result ℤ
signed_shift_left n0 shift_by bit_width = do
  twos_n0 ← shln (to_twos n0 bit_width) shift_by
  ok (from_twos (maskn twos_n0 (bit_width + 1)) bit_width)

unfoldable pub signed_shift_right : ℤ → ℕ → ℕ → Result ℤ
signed_shift_right n0 shift_by bit_width = do
  twos_n0 ← shrn (to_twos n0 bit_width) shift_by
  ok (from_twos (maskn twos_n0 (bit_width - shift_by + 1)) (bit_width - shift_by))

-- `(tick & bit) != 0`
abbrev pub has_bit : ℕ → ℕ → Bool
has_bit tick bit = if bit_and tick bit == 0 then Bool.false else Bool.true

-- One `if` of the two conversions: where the tick has the bit, the ratio is multiplied.
unfoldable pub scale : ℕ → ℕ → ℕ → ℕ → ℤ → Result ℤ
unfolding ◌*ℤ◌
scale tick shift_by bit factor ratio =
    if has_bit tick bit then signed_shift_right (ratio *ℤ pos factor) shift_by 256 else ok ratio

unfoldable pub tick_index_to_sqrt_price_positive : ℕ → Result ℤ
tick_index_to_sqrt_price_positive tick = do
  let r0 =
      if has_bit tick 1
      then pos 79232123823359799118286999567
      else pos 79228162514264337593543950336
  r1 ← scale tick 96 2 79236085330515764027303304731 r0
  r2 ← scale tick 96 4 79244008939048815603706035061 r1
  r3 ← scale tick 96 8 79259858533276714757314932305 r2
  r4 ← scale tick 96 16 79291567232598584799939703904 r3
  r5 ← scale tick 96 32 79355022692464371645785046466 r4
  r6 ← scale tick 96 64 79482085999252804386437311141 r5
  r7 ← scale tick 96 128 79736823300114093921829183326 r6
  r8 ← scale tick 96 256 80248749790819932309965073892 r7
  r9 ← scale tick 96 512 81282483887344747381513967011 r8
  r10 ← scale tick 96 1024 83390072131320151908154831281 r9
  r11 ← scale tick 96 2048 87770609709833776024991924138 r10
  r12 ← scale tick 96 4096 97234110755111693312479820773 r11
  r13 ← scale tick 96 8192 119332217159966728226237229890 r12
  r14 ← scale tick 96 16384 179736315981702064433883588727 r13
  r15 ← scale tick 96 32768 407748233172238350107850275304 r14
  r16 ← scale tick 96 65536 2098478828474011932436660412517 r15
  r17 ← scale tick 96 131072 55581415166113811149459800483533 r16
  r18 ← scale tick 96 262144 38992368544603139932233054999993551 r17
  signed_shift_right r18 32 256

unfoldable pub tick_index_to_sqrt_price_negative : ℕ → Result ℤ
tick_index_to_sqrt_price_negative tick = do
  let r0 = if has_bit tick 1 then pos 18445821805675392311 else pos 18446744073709551616
  r1 ← scale tick 64 2 18444899583751176498 r0
  r2 ← scale tick 64 4 18443055278223354162 r1
  r3 ← scale tick 64 8 18439367220385604838 r2
  r4 ← scale tick 64 16 18431993317065449817 r3
  r5 ← scale tick 64 32 18417254355718160513 r4
  r6 ← scale tick 64 64 18387811781193591352 r5
  r7 ← scale tick 64 128 18329067761203520168 r6
  r8 ← scale tick 64 256 18212142134806087854 r7
  r9 ← scale tick 64 512 17980523815641551639 r8
  r10 ← scale tick 64 1024 17526086738831147013 r9
  r11 ← scale tick 64 2048 16651378430235024244 r10
  r12 ← scale tick 64 4096 15030750278693429944 r11
  r13 ← scale tick 64 8192 12247334978882834399 r12
  r14 ← scale tick 64 16384 8131365268884726200 r13
  r15 ← scale tick 64 32768 3584323654723342297 r14
  r16 ← scale tick 64 65536 696457651847595233 r15
  r17 ← scale tick 64 131072 26294789957452057 r16
  r18 ← scale tick 64 262144 37481735321082 r17
  ok r18

unfoldable pub tick_index_to_sqrt_price_x64 : ℤ → Result ℤ
tick_index_to_sqrt_price_x64 (pos zero) = tick_index_to_sqrt_price_negative 0
tick_index_to_sqrt_price_x64 (pos (suc tick)) = tick_index_to_sqrt_price_positive (suc tick)
tick_index_to_sqrt_price_x64 (negsuc tick) = tick_index_to_sqrt_price_negative (suc tick)

abbrev pub bit_precision : ℕ
bit_precision = 14

abbrev pub log_b_2_x32 : ℤ
log_b_2_x32 = pos 59543866431248

abbrev pub log_b_p_err_margin_lower_x64 : ℤ
log_b_p_err_margin_lower_x64 = pos 184467440737095516

abbrev pub log_b_p_err_margin_upper_x64 : ℤ
log_b_p_err_margin_upper_x64 = pos 15793534762490258745

-- The `while` loop: `rounds` is BIT_PRECISION less `precision`, and `bit`, `r` and
-- `log2pFractionX64` are never negative.
abbrev pub log_loop : ℕ → ℕ → ℕ → ℕ → ℕ
log_loop zero bit r fraction = fraction
log_loop (suc rounds) zero r fraction = fraction
log_loop (suc rounds) (suc b) r fraction =
    let bit = suc b in
    let squared = r * r in
    let r_more_than_two = squared / 2 ^ 127 in
    log_loop rounds (bit / 2) (squared / 2 ^ (63 + r_more_than_two))
      (fraction + bit * r_more_than_two)

-- The choice between the two candidates.
abbrev pub select_tick : ℤ → ℤ → ℤ → Result ℤ
select_tick sqrt_price_x64 tick_low tick_high =
    if eqb_ℤ tick_low tick_high
    then ok tick_low
    else tick_index_to_sqrt_price_x64 tick_high >>= λ derived.
        ok (if leb_ℤ derived sqrt_price_x64 then tick_high else tick_low)

-- The part after the range check, at a price `p` that is not zero.
unfoldable pub tick_index_in_range : ℕ → Result ℤ
unfolding ◌+ℤ◌ ◌-ℤ◌ ◌*ℤ◌
tick_index_in_range p = do
  let msb = bit_length p - 1
  log2p_integer_x32 ← signed_shift_left (pos msb -ℤ pos 64) 32 128
  let r = if leb 64 msb then p / 2 ^ (msb - 63) else p * 2 ^ (63 - msb)
  let log2p_fraction_x64 = log_loop bit_precision (2 ^ 63) r 0
  let log2p_x32 = log2p_integer_x32 +ℤ pos (log2p_fraction_x64 / 2 ^ 32)
  let logbp_x64 = log2p_x32 *ℤ log_b_2_x32
  tick_low ← signed_shift_right (logbp_x64 -ℤ log_b_p_err_margin_lower_x64) 64 128
  tick_high ← signed_shift_right (logbp_x64 +ℤ log_b_p_err_margin_upper_x64) 64 128
  select_tick (pos p) tick_low tick_high

unfoldable pub sqrt_price_x64_to_tick_index : ℤ → Result ℤ
sqrt_price_x64_to_tick_index sqrt_price_x64 = do
  throw_if (ltb_ℤ max_sqrt_price sqrt_price_x64 || ltb_ℤ sqrt_price_x64 min_sqrt_price) plain
  elim sqrt_price_x64 [ pos p ↦ tick_index_in_range p | negsuc p ↦ err assertion ]
