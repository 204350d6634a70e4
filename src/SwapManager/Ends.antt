-- ===== src/SwapManager/Ends.antt =====
-- The loop of a swap ends (swap-manager.ts): it has at most one round for each tick of the sequence,
-- and two more. SwapManager/Outputs has what this takes for an exact output.
use whirlpools.Prelude.{
  ℕ, zero, suc, ◌+◌, ◌*◌, ◌≤◌, ◌<◌, ◌≡◌, refl, ap, ◌∙◌, ◌⊎◌, inl, inr, arith, true, false,
  Bool-cases, length, ℤ, ◌≤ℤ◌,
}
use whirlpools.Errors.{Error, Result, ok, err, ◌>>=◌}
use whirlpools.Sdk.{Sdk}
use whirlpools.Constants.{min_sqrt_price, max_sqrt_price}
use whirlpools.AnchorTypes.{WhirlpoolData}
use whirlpools.TickArraySequence.{TickArraySequence}
use whirlpools.TickArraySequence.Moves.{rounds_fit}
use whirlpools.TickArraySequence.Passes.{Found, find_next_initialized_tick_index-Found}
use whirlpools.TickArraySequence.Onward.{Start, rounds_from, start_of_search}
use whirlpools.SwapManager.{
  SwapState, SwapArgs, goes_on, swap_round, swap_loop, compute_swap, args_of, start_of, result_of,
}
use whirlpools.SwapManager.Rounds.{RoundParts, Spends, input-Spends, swap_round-RoundParts}
use whirlpools.SwapManager.Progress.{round_progress}

result_cases {ℓ} :
    {A : Type ℓ} (r : Result A) → ((e : Error) × (r ≡ err e)) ⊎ ((a : A) × (r ≡ ok a))
result_cases (err e) = inl (e, refl)
result_cases (ok a) = inr (a, refl)

none_less : {a : ℕ} → a < 0 → ⊥
none_less h = omega arith

less : {a b c : ℕ} → a < b → b < suc c → a < c
less h k = omega arith

module _ {Key : Type 0} (sdk : Sdk) (args : SwapArgs) where
  -- A run of the loop, without a bound on its rounds: `Runs k s r` goes through the body `k` times
  -- from the variables `s` and ends with `r`.
  pub data Runs : ℕ → SwapState Key → Result (SwapState Key) → Type 0 where
    stops : (s : SwapState Key) → goes_on sdk args s ≡ false → Runs 0 s (ok s)
    throws :
        (s : SwapState Key) (e : Error)
        → goes_on sdk args s ≡ true
        → swap_round sdk args s ≡ err e
        → Runs 1 s (err e)
    steps :
        (k : ℕ) (s next : SwapState Key) (r : Result (SwapState Key))
        → goes_on sdk args s ≡ true
        → swap_round sdk args s ≡ ok next
        → Runs k next r
        → Runs (suc k) s r

  -- Fuel above the rounds of the run gives its result.
  pub swap_loop-Runs :
      (fuel : ℕ) {k : ℕ} {s : SwapState Key} {r : Result (SwapState Key)}
      → Runs k s r
      → k < fuel
      → swap_loop sdk args fuel s ≡ r
  unfolding swap_loop
  swap_loop-Runs zero run lt = absurd (none_less lt)
  swap_loop-Runs (suc fuel) (stops s stop) lt = rw (stop, swap_loop) refl
  swap_loop-Runs (suc fuel) (throws s e on thrown) lt = rw (on, thrown, swap_loop) refl
  swap_loop-Runs (suc fuel) (steps n s next r on is run) lt =
      rw (on, is, swap_loop) (swap_loop-Runs fuel run (omega arith))

  -- The loop has ended within `most` rounds.
  abbrev pub EndsWithin : ℕ → SwapState Key → Type 0
  EndsWithin most s = (r : Result (SwapState Key)) × (k : ℕ) × Runs k s r × (k ≤ most)

  -- A round that returns has searched from inside the sequence.
  round_start :
      (s next : SwapState Key)
      → 0 < s.tick_sequence.tick_spacing
      → swap_round sdk args s ≡ ok next
      → (p : RoundParts sdk args s next) × Found s.tick_sequence s.curr_tick_index p.found
          p.searched
  round_start s next hs is =
      let p : RoundParts sdk args s next = swap_round-RoundParts sdk args s next is in
      (
        p,
        find_next_initialized_tick_index-Found s.tick_sequence p.searched s.curr_tick_index p.found
            hs p.find_is,
      )

  -- The states that the loop goes through.
  pub data Reached (start : SwapState Key) : SwapState Key → Type 0 where
    at_start : Reached start start
    then_round :
        {s next : SwapState Key}
        → Reached start s
        → goes_on sdk args s ≡ true
        → swap_round sdk args s ≡ ok next
        → Reached start next

  abbrev pub AllSpend : SwapState Key → Type 0
  AllSpend start =
      (s next : SwapState Key)
      → Reached start s
      → goes_on sdk args s ≡ true
      → (p : RoundParts sdk args s next) → Spends sdk args s next p

  loop_ends :
      (start : SwapState Key)
      → AllSpend start
      → (bound : ℕ) (s : SwapState Key) → Reached start s
      → 0 < s.tick_sequence.tick_spacing
      → s.tick_sequence.a_to_b ≡ args.a_to_b
      → min_sqrt_price ≤ℤ args.sqrt_price_limit
      → args.sqrt_price_limit ≤ℤ max_sqrt_price
      → ((b : Start s.tick_sequence s.curr_tick_index)
          → rounds_from s.tick_sequence s.curr_tick_index b < bound)
      → EndsWithin (suc bound) s
  loop_ends start all zero s reached hs d low high left = elim (Bool-cases (goes_on sdk args s)) [
    | inr stop ↦ (ok s, 0, stops s stop, omega arith)
    | inl on ↦ elim (result_cases (swap_round sdk args s)) [
      | inl (e, thrown) ↦ (err e, 1, throws s e on thrown, omega arith)
      | inr (next, is) ↦
          let (p, f) = round_start s next hs is in
          absurd (
            none_less
              (left (start_of_search s.tick_sequence p.searched s.curr_tick_index p.found f)))
    ]
  ]
  loop_ends start all (suc bound) s reached hs d low high left =
      elim (Bool-cases (goes_on sdk args s)) [
        | inr stop ↦ (ok s, 0, stops s stop, omega arith)
        | inl on ↦ elim (result_cases (swap_round sdk args s)) [
          | inl (e, thrown) ↦ (err e, 1, throws s e on thrown, omega arith)
          | inr (next, is) ↦
              let (p, f) = round_start s next hs is in
              let lt =
                left (start_of_search s.tick_sequence p.searched s.curr_tick_index p.found f) in
              elim (round_progress sdk args s next hs d low high p (all s next reached on p) f) [
                | inl stop ↦
                    (ok next, 1, steps 0 s next (ok next) on is (stops next stop), omega arith)
                | inr (same, fewer) ↦
                    let (r, k, run, le) =
                      loop_ends start all bound next (then_round reached on is)
                        (rw same.spacing_is hs) (same.direction_is ∙ d) low high
                        (λ at_next. less (fewer at_next) lt) in
                    (r, suc k, steps k s next r on is run, omega arith)
              ]
        ]
      ]

  -- Where every step that falls short of its target uses the amount up, for a positive spacing and a
  -- price limit within the bounds of the prices, the loop of a swap ends, by the amount, the limit
  -- or an exception of its body: in at most 88 rounds for each tick array and two more.
  pub swap_loop-ends :
      (s : SwapState Key)
      → AllSpend s
      → 0 < s.tick_sequence.tick_spacing
      → s.tick_sequence.a_to_b ≡ args.a_to_b
      → min_sqrt_price ≤ℤ args.sqrt_price_limit
      → args.sqrt_price_limit ≤ℤ max_sqrt_price
      → EndsWithin (88 * length s.tick_sequence.sequence + 2) s
  swap_loop-ends s all hs d low high =
      let (r, k, run, le) =
        loop_ends s all (suc (88 * length s.tick_sequence.sequence)) s at_start hs d low high (λ b.
          rounds_fit s.tick_sequence.a_to_b (length s.tick_sequence.sequence) b.local b.offset
            b.offset_lt) in
      (r, k, run, omega arith)

module _ {Key : Type 0} (sdk : Sdk) where
  -- For an exact input, a positive spacing and a price limit within the bounds of the prices, a
  -- swap that has fuel for 88 rounds for each tick array and three more is what the loop without
  -- a bound on its rounds ends with, whatever the amount, the pool and the ticks are.
  pub compute_swap-ends :
      (fuel : ℕ) (pool : WhirlpoolData Key) (arrays : TickArraySequence Key) (amount limit : ℤ)
      → 0 < arrays.tick_spacing
      → min_sqrt_price ≤ℤ limit
      → limit ≤ℤ max_sqrt_price
      → 88 * length arrays.sequence + 2 < fuel
      → (r : Result (SwapState Key)) × (k : ℕ) × Runs sdk
          (args_of sdk pool limit true arrays.a_to_b)
          k
          (start_of sdk pool arrays amount arrays.a_to_b)
          r
        × (k ≤ 88 * length arrays.sequence + 2)
        × (compute_swap sdk fuel pool arrays amount limit true arrays.a_to_b
            ≡ (r >>= λ last. ok (result_of sdk amount true arrays.a_to_b last)))
  unfolding compute_swap
  compute_swap-ends fuel pool arrays amount limit hs low high enough =
      let args : SwapArgs = args_of sdk pool limit true arrays.a_to_b in
      let start : SwapState Key = start_of sdk pool arrays amount arrays.a_to_b in
      let (r, k, run, le) =
        swap_loop-ends sdk args start (λ s next _ _ p. input-Spends sdk args s next refl p) hs refl
          low high in
      (
        r,
        k,
        run,
        le,
        ap
            (λ (x : Result (SwapState Key)).
              x >>= λ last. ok (result_of sdk amount true arrays.a_to_b last))
            (swap_loop-Runs sdk args fuel run (omega arith)),
      )
