-- ===== src/Rewards/Identifiers.antt =====
-- A valid withdrawal by identifiers pays each record once.
use archway.Common.{
  ℕ, ◌≡◌, ◌≢◌, ◌<◌, ◌↔◌, refl, sym, false, Option, some, List, [], ◌∷◌, All, ok, arith,
}
use archway.Common.Key.{Bytes, Text, bytes_key, nat_key}
use archway.Common.Store.{get}
use archway.Sdk.{Sdk}
use archway.Rewards.State.{RewardsRecord, State, address_key}
use archway.Rewards.Msgs.{is_in, check_ids}

-- Identifiers above 0 of which no two are equal, and none is in a list.
abbrev pub AreFresh : List ℕ → List ℕ → Type 0
AreFresh seen [] = Unit
AreFresh seen (id ∷ ids) =
    (0 < id) × All (λ x. x ≢ id) seen × All (λ x. x ≢ id) ids × AreFresh seen ids

is_in-All : (id : ℕ) (xs : List ℕ) → (is_in id xs ≡ false) ↔ All (λ x. x ≢ id) xs
unfolding is_in
is_in-All id [] = (λ h. tt, λ h. refl)
is_in-All id (x ∷ xs) =
    let rest = is_in-All id xs in
    (
      λ h. (λ e. ground (arith, h, e), rest.0 (ground (arith, h))),
      λ h. ground (arith, h.0, rest.1 h.1),
    )

-- What was seen can hold one identifier more, if no later one is equal to it.
AreFresh-more :
    (seen ids : List ℕ) (id : ℕ)
    → AreFresh (id ∷ seen) ids ↔ (All (λ x. x ≢ id) ids × AreFresh seen ids)
AreFresh-more seen [] id = (λ h. (tt, tt), λ h. tt)
AreFresh-more seen (x ∷ ids) id =
    let rest = AreFresh-more seen ids id in
    (
      λ (above, (first, old), apart, h).
          ((λ e. first (sym e), (rest.0 h).0), (above, old, apart, (rest.0 h).1)),
      λ ((differs, others), (above, old, apart, h)).
          (above, (λ e. differs (sym e), old), apart, rest.1 (others, h)),
    )

-- The loop over the identifiers of a withdrawal accepts exactly those lists that have no 0, no
-- identifier twice, and none that was seen before.
pub check_ids-AreFresh : (ids seen : List ℕ) → (check_ids seen ids ≡ ok tt) ↔ AreFresh seen ids
unfolding check_ids
check_ids-AreFresh [] seen = (λ h. tt, λ h. refl)
check_ids-AreFresh (id ∷ ids) seen =
    let rest = check_ids-AreFresh ids (id ∷ seen) in
    let more = AreFresh-more seen ids id in
    let unseen = is_in-All id seen in
    (
      λ h.
          let (others, fresh) = more.0 (rest.0 (ground (arith, h))) in
          (ground (arith, h), unseen.0 (ground (arith, h)), others, fresh),
      λ (above, old, others, fresh).
          ground (arith, above, unseen.1 old, rest.1 (more.1 (others, fresh))),
    )

module _ (sdk : Sdk) (contract_admin : Bytes → Option Text) where
  open sdk use {Coins, from_bech32, to_bech32, blocked_addr, module_address}

  -- Every record stands under its identifier, and the index has it under its address.
  abbrev pub IsListed : State sdk → Type 0
  IsListed s =
      (id : ℕ) (r : RewardsRecord Coins)
      → get s.rewards_records id ≡ some r
      → (r.id ≡ id)
        × (b : Bytes) × (from_bech32 r.rewards_address ≡ some b)
        × (get s.records_by_address (b, id) ≡ some tt)
