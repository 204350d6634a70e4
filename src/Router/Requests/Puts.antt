-- ===== src/Router/Requests/Puts.antt =====
-- The slots of a percent in a quote map, read and replaced (router/quote-map.ts).
use native.Mathlib.Decide.{ℕ_discrete}
use whirlpools.Prelude.{ℕ, ◌≡◌, ◌⊎◌, refl, Option, none, some, inl, inr}
use whirlpools.Router.Quotes.{InternalQuoteMap}
use whirlpools.Router.Requests.{entry_at, put_entry, item_at, slots_or_new}
use whirlpools.Router.Requests.Each.{Slots}
use whirlpools.Router.Requests.Views.{
  item_of, slot_at, item_at-replicate, slot_at-put_self, slot_at-put_other,
}

module _ {Key : Type 0} where
  pub slots_or_new-slot_at :
      (n : ℕ) (m : InternalQuoteMap Key) (p j : ℕ)
      → item_at (slots_or_new n (entry_at p m)) j ≡ slot_at m p j
  slots_or_new-slot_at n m p j = by_entry (entry_at p m)
    where
      by_entry : (entry : Option (Slots Key)) → item_at (slots_or_new n entry) j ≡ item_of entry j
      by_entry none = item_at-replicate n j
      by_entry (some slots) = refl

  -- A slot of the map with one percent's slots replaced.
  pub put_cases :
      (m : InternalQuoteMap Key) (p : ℕ) (slots : Slots Key) (k j : ℕ)
      → ((p ≡ k) × (slot_at (put_entry p slots m) k j ≡ item_at slots j))
        ⊎ (slot_at (put_entry p slots m) k j ≡ slot_at m k j)
  put_cases m p slots k j = elim (ℕ_discrete p k) [
    | yes same ↦ inl (same, rw (← same) (slot_at-put_self m p j slots))
    | no apart ↦ inr (slot_at-put_other m p k j slots apart)
  ]
