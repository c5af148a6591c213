-- ===== src/Cwerrors/Expiry.antt =====
-- A subscription and the entry of its end block stand and fall together.
use archway.Common.{
  not, ◌≡◌, ◌↔◌, ◌≢◌, refl, ap, Bool, false, ◌||◌, none, some, Option-cases, inl, inr, ok, arith,
  if◌then◌else◌, [], ◌∷◌, select,
}
use archway.Common.Key.{Bytes, ◌==◌, bytes_eq_iff, bytes_key}
use archway.Common.Int.{ℤ, int_key, eqb_ℤ_iff, ◌+ℤ◌}
use archway.Common.Store.{
  Store, get, has, set, remove, get-set, get-set_self, get-remove, get-select,
}
use archway.Sdk.{Sdk, Coin}
use archway.Cwerrors.State.{Params, State, Keepers, end_block_key}
use archway.Cwerrors.Subscriptions.{
  max, unsubscribe, get_subscription, drop_end_block, set_subscription,
  prune_subscriptions_end_block,
}

abbrev Ends : Type 0
Ends = Store (ℤ × Bytes) (Unit {0})

-- Whether a contract is among the entries of a walk.
abbrev among : Ends → Bytes → Bool
among [] c = false
among ((key, _) ∷ entries) c = (key.1 == c) || among entries c

get-unsubscribe :
    (m : Store Bytes ℤ) (entries : Ends) (c : Bytes)
    → get (unsubscribe m entries) c ≡ (if among entries c then none else get m c)
unfolding unsubscribe
get-unsubscribe m [] c = refl
get-unsubscribe m (((h, b), u) ∷ entries) c =
    ground (arith, get-unsubscribe (remove m b) entries c, get-remove m b c)

among-select :
    (h : ℤ) (m : Ends) (c : Bytes)
    → among (select (λ (x : (ℤ × Bytes) × Unit {0}). x.0.0 == h) m) c ≡ has m (h, c)
unfolding get
among-select h [] c = refl
among-select h (((k, b), u) ∷ m) c =
    ground
      (arith, among-select h m c, eqb_ℤ_iff h k, eqb_ℤ_iff k h, bytes_eq_iff b c, bytes_eq_iff c b)

module _ (sdk : Sdk) (keepers : Keepers sdk) where
  open sdk use {to_bech32}
  open keepers use {World}

  -- A contract is subscribed until a height exactly when it has an entry in the walk of that height.
  abbrev pub IsTimed : State sdk World → Type 0
  IsTimed s =
      (c : Bytes) (h : ℤ)
      → (get s.contract_subscriptions c ≡ some h) ↔ (get s.subscription_end_block (h, c) ≡ some tt)

  pruned :
      (height : ℤ) (s : State sdk World) (c : Bytes)
      → get (prune_subscriptions_end_block sdk keepers height s).contract_subscriptions c ≡ (
          if has s.subscription_end_block (height, c) then none else get s.contract_subscriptions c)
  unfolding prune_subscriptions_end_block
  pruned height s c = ground (
    arith,
    among-select height s.subscription_end_block c,
    get-unsubscribe s.contract_subscriptions
        (select (λ (x : (ℤ × Bytes) × Unit {0}). x.0.0 == height) s.subscription_end_block) c,
  )

  left :
      (height : ℤ) (s : State sdk World) (h : ℤ) (c : Bytes)
      → get (prune_subscriptions_end_block sdk keepers height s).subscription_end_block (h, c)
        ≡ (if h == height then none else get s.subscription_end_block (h, c))
  unfolding prune_subscriptions_end_block
  left height s h c =
      ground
        (arith, get-select (λ (k : ℤ × Bytes). not (k.0 == height)) s.subscription_end_block (h, c))

  -- The end of a block removes the subscriptions that end at its height, and no other.
  pub prune_subscriptions_end_block-IsTimed :
      (height : ℤ) (s : State sdk World)
      → IsTimed s
      → IsTimed (prune_subscriptions_end_block sdk keepers height s)
        × ((c : Bytes)
            → (get s.contract_subscriptions c ≡ some height
                → get (prune_subscriptions_end_block sdk keepers height s).contract_subscriptions c
                  ≡ none)
              × (get s.contract_subscriptions c ≢ some height
                  → get
                      (prune_subscriptions_end_block sdk keepers height s).contract_subscriptions
                      c
                    ≡ get s.contract_subscriptions c))
  prune_subscriptions_end_block-IsTimed height s v = (
    λ c h. (
      λ e.
          ground
            (arith, pruned height s c, left height s h c, v c h, v c height, eqb_ℤ_iff h height),
      λ e.
          ground
            (arith, pruned height s c, left height s h c, v c h, v c height, eqb_ℤ_iff h height),
    ),
    λ c. (
      λ e. ground (arith, pruned height s c, v c height),
      λ e. ground (arith, pruned height s c, v c height),
    ),
  )

  -- What is left of the entries when that of a contract is dropped.
  dropped :
      (s : State sdk World) (contract : Bytes) (h : ℤ) (c : Bytes)
      → IsTimed s
      → get
          (drop_end_block s.subscription_end_block contract
            (get_subscription sdk keepers s contract))
          (h, c)
        ≡ (if contract == c then none else get s.subscription_end_block (h, c))
  unfolding get_subscription drop_end_block
  dropped s contract h c v = elim (Option-cases (get s.contract_subscriptions contract)) [
    | inl no' ↦ ground (arith, v c h, bytes_eq_iff contract c)
    | inr (k, found) ↦ ground (
      arith,
      get-remove s.subscription_end_block (k, contract) (h, c),
      v c h,
      bytes_eq_iff contract c,
      eqb_ℤ_iff k h,
    )
  ]

  -- What a call that went through has done to the two stores.
  abbrev HasSet : ℤ → Bytes → State sdk World → State sdk World → Type 0
  HasSet end_height contract s s' =
      (s'.contract_subscriptions ≡ set s.contract_subscriptions contract end_height)
      × (s'.subscription_end_block
          ≡ set
              (drop_end_block s.subscription_end_block contract
                (get_subscription sdk keepers s contract))
              (end_height, contract) tt)

  set-IsTimed :
      (s s' : State sdk World) (end_height : ℤ) (contract : Bytes)
      → IsTimed s
      → HasSet end_height contract s s'
      → IsTimed s'
  set-IsTimed s s' end_height contract v (subs, ends) c h = (
    λ e. ground (
      arith,
      ap (λ m. get m c) subs,
      ap (λ m. get m (h, c)) ends,
      get-set s.contract_subscriptions contract end_height c,
      get-set
          (drop_end_block s.subscription_end_block contract
            (get_subscription sdk keepers s contract))
          (end_height, contract) tt (h, c),
      dropped s contract h c v,
      v c h,
      eqb_ℤ_iff end_height h,
    ),
    λ e. ground (
      arith,
      ap (λ m. get m c) subs,
      ap (λ m. get m (h, c)) ends,
      get-set s.contract_subscriptions contract end_height c,
      get-set
          (drop_end_block s.subscription_end_block contract
            (get_subscription sdk keepers s contract))
          (end_height, contract) tt (h, c),
      dropped s contract h c v,
      v c h,
      eqb_ℤ_iff end_height h,
    ),
  )

  set_at :
      (height : ℤ) (s : State sdk World) (sender contract : Bytes) (fee : Coin) (p : Params)
      {end_height : ℤ} {s' : State sdk World}
      → s.params ≡ some p
      → set_subscription sdk keepers height s sender contract fee ≡ ok (end_height, s')
      → (end_height
          ≡ max height (get_subscription sdk keepers s contract).1 +ℤ p.subscription_period)
        × HasSet end_height contract s s'
  unfolding set_subscription
  set_at height s sender contract fee p has_params ran =
      (ground arith, (ground arith, ground arith))

  -- A subscription that is paid for lasts its period from now, or from the end of the one that the
  -- contract has; it replaces that one, and the subscriptions of other contracts stay.
  pub set_subscription-IsTimed :
      (height : ℤ) (s : State sdk World) (sender contract : Bytes) (fee : Coin) (p : Params)
      {end_height : ℤ} {s' : State sdk World}
      → IsTimed s
      → s.params ≡ some p
      → set_subscription sdk keepers height s sender contract fee ≡ ok (end_height, s')
      → IsTimed s'
        × (end_height
            ≡ max height (get_subscription sdk keepers s contract).1 +ℤ p.subscription_period)
        × (get s'.contract_subscriptions contract ≡ some end_height)
        × ((c : Bytes)
            → c ≢ contract
            → get s'.contract_subscriptions c ≡ get s.contract_subscriptions c)
  set_subscription-IsTimed height s sender contract fee p {end_height} {s'} v has_params ran =
      let (at, (subs, ends)) = set_at height s sender contract fee p has_params ran in
      (
        set-IsTimed s s' end_height contract v (subs, ends),
        at,
        rw subs (get-set_self s.contract_subscriptions contract end_height),
        λ c other. rw subs (
            ground (
              arith,
              get-set s.contract_subscriptions contract end_height c,
              bytes_eq_iff contract c,
            )),
      )
