-- ===== src/SwapManager/Fees.antt =====
-- How the fees of a swap step are accounted for (swap-manager.ts).
use native.Mathlib.Nat.{div-eq_of_lt}
use whirlpools.Prelude.{ℕ, zero, suc, ◌+◌, ◌*◌, ◌/◌, ◌^◌, ◌<◌, ◌==◌, ◌≡◌, arith, pos, if◌then◌else◌}
use whirlpools.Errors.{ok}
use whirlpools.SwapManager.{calculate_fees, calculate_protocol_fee}

-- At every protocol fee rate below 10_000 the protocol's share comes out as nothing: the protocol
-- fee that starts at zero stays there, and the whole fee goes to the growth of the pool's fees,
-- divided by its liquidity where it has any.
pub calculate_fees-no_share :
    (fee rate l g : ℕ)
    → rate < 10_000
    → calculate_fees (pos fee) (pos rate) (pos l) (pos 0) (pos g)
      ≡ ok (record {
        next_protocol_fee = pos 0;
        next_fee_growth_global_input = pos (if l == 0 then g else g + fee * 2 ^ 64 / l);
      })
unfolding calculate_fees calculate_protocol_fee
calculate_fees-no_share fee zero l g h = ground arith
calculate_fees-no_share fee (suc rate) l g h =
    ground (arith, div-eq_of_lt {n = suc rate} {m = 10_000} h)
