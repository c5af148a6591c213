-- ===== src/Rewards/Ownership.antt =====
-- Who may change the metadata and the flat fee of a contract, and to what.
use archway.Common.{
  ◌≡◌, ◌≢◌, ◌⊎◌, ap, subst, ◌∙◌, true, false, Option, none, some, Option-cases, inl, inr,
  Bool-cases, ok, Result-cases, arith,
}
use archway.Common.Key.{Bytes, Text, ◌==◌, bytes_eq, bytes_eq_iff, bytes_key}
use archway.Common.Store.{get, set, get-set}
use archway.Sdk.{Sdk}
use archway.Rewards.State.{ContractMetadata, State}
use archway.Rewards.Metadata.{
  is_set, check_rewards_address, may_set, base_metadata, updated, set_contract_metadata,
}

module _ (sdk : Sdk) (contract_admin : Bytes → Option Text) where
  open sdk use {from_bech32, to_bech32, blocked_addr}

  -- Every rewards address that is set parses and takes transfers.
  abbrev pub IsPayable : Text → Type 0
  IsPayable address =
      is_set address ≡ true
      → (a : Bytes) × (from_bech32 address ≡ some a) × (blocked_addr a ≡ false)

  -- The metadata whose rewards addresses can be paid.
  abbrev pub ArePayable : State sdk → Type 0
  ArePayable s =
      (c : Bytes) (m : ContractMetadata)
      → get s.contract_metadata c ≡ some m
      → IsPayable m.rewards_address

  checked :
      (address : Text)
      → check_rewards_address sdk contract_admin address ≡ ok tt
      → IsPayable address
  unfolding check_rewards_address
  checked address h on = elim (Option-cases (from_bech32 address)) [
    | inl bad ↦ ground arith
    | inr (a, parsed) ↦ (a, parsed, ground arith)
  ]

  none_fails :
      (s : State sdk) (sender contract : Bytes) (updates : ContractMetadata) {s' : State sdk}
      → contract_admin contract ≡ none
      → set_contract_metadata sdk contract_admin s sender contract updates ≢ ok s'
  unfolding set_contract_metadata
  none_fails s sender contract updates bad h = ground arith

  -- The sender owns the metadata of the contract, or administers a contract that has none.
  abbrev pub HasRight : State sdk → Bytes → Bytes → Type 0
  HasRight s sender contract =
      ((old : ContractMetadata) × (get s.contract_metadata contract ≡ some old)
        × (old.owner_address ≡ to_bech32 sender))
      ⊎ ((get s.contract_metadata contract ≡ none)
          × (contract_admin contract ≡ some (to_bech32 sender)))

  set_new :
      (s : State sdk) (sender contract : Bytes) (updates : ContractMetadata) (admin : Text)
      {s' : State sdk}
      → contract_admin contract ≡ some admin
      → get s.contract_metadata contract ≡ none
      → set_contract_metadata sdk contract_admin s sender contract updates ≡ ok s'
      → (admin ≡ to_bech32 sender)
        × (check_rewards_address sdk contract_admin updates.rewards_address ≡ ok tt)
        × (s'.contract_metadata
            ≡ set s.contract_metadata contract (
                updated sdk contract_admin
                  (base_metadata sdk contract_admin none (to_bech32 contract) (to_bech32 sender))
                  updates))
  unfolding set_contract_metadata may_set
  set_new s sender contract updates admin has_admin found h =
      elim (Result-cases (check_rewards_address sdk contract_admin updates.rewards_address)) [
        | inr bad ↦ ground arith
        | inl (u, e) ↦ (ground (arith, bytes_eq_iff admin (to_bech32 sender)), e, ground arith)
      ]

  set_old :
      (s : State sdk) (sender contract : Bytes) (updates : ContractMetadata)
      (old : ContractMetadata) {s' : State sdk}
      → get s.contract_metadata contract ≡ some old
      → set_contract_metadata sdk contract_admin s sender contract updates ≡ ok s'
      → (old.owner_address ≡ to_bech32 sender)
        × (check_rewards_address sdk contract_admin updates.rewards_address ≡ ok tt)
        × (s'.contract_metadata
            ≡ set s.contract_metadata contract (
                updated sdk contract_admin
                  (base_metadata sdk contract_admin
                    (some old)
                    (to_bech32 contract)
                    (to_bech32 sender))
                  updates))
  unfolding set_contract_metadata may_set
  set_old s sender contract updates old found h = elim (Option-cases (contract_admin contract)) [
    | inl bad ↦ ground arith
    | inr (admin, has_admin) ↦
        elim (Result-cases (check_rewards_address sdk contract_admin updates.rewards_address)) [
          | inr bad ↦ ground arith
          | inl (u, e) ↦
              (ground (arith, bytes_eq_iff old.owner_address (to_bech32 sender)), e, ground arith)
        ]
  ]

  updated-IsPayable :
      (base updates : ContractMetadata)
      → IsPayable base.rewards_address
      → IsPayable updates.rewards_address
      → IsPayable (updated sdk contract_admin base updates).rewards_address
  unfolding updated
  updated-IsPayable base updates p q = elim (Bool-cases (is_set updates.rewards_address)) [
    | inl on ↦ rw on q
    | inr off ↦ rw off p
  ]

  new-IsPayable :
      (contract sender : Text)
      → IsPayable (base_metadata sdk contract_admin none contract sender).rewards_address
  unfolding base_metadata bytes_eq
  new-IsPayable contract sender on = ground arith

  stored-ArePayable :
      (s s' : State sdk) (contract : Bytes) (m : ContractMetadata)
      → s'.contract_metadata ≡ set s.contract_metadata contract m
      → IsPayable m.rewards_address
      → ArePayable s
      → ArePayable s'
        × ((c : Bytes) → c ≢ contract → get s'.contract_metadata c ≡ get s.contract_metadata c)
  stored-ArePayable s s' contract m e p v = (
    λ c x found. elim (Bool-cases (contract == c)) [
      | inl same ↦
          let f : some m ≡ some x =
            ground (arith, ap (λ k. get k c) e, get-set s.contract_metadata contract m c) in
          subst IsPayable (rewards_of f) p
      | inr other ↦
          v c x (ground (arith, ap (λ k. get k c) e, get-set s.contract_metadata contract m c))
    ],
    λ c other.
        rw e (ground (arith, get-set s.contract_metadata contract m c, bytes_eq_iff contract c)),
  )
    where
      address_or : Text → Option ContractMetadata → Text
      address_or t none = t
      address_or t (some y) = y.rewards_address

      rewards_of :
          {a b : ContractMetadata} → some a ≡ some b → a.rewards_address ≡ b.rewards_address
      rewards_of {a} {b} f = ap (address_or a.rewards_address) f

  -- Metadata is set only by its owner, or by the admin of a contract that has none; the metadata of
  -- other contracts stays, and every rewards address that is stored can be paid, if it was so before.
  pub set_contract_metadata-ArePayable :
      (s : State sdk) (sender contract : Bytes) (updates : ContractMetadata) {s' : State sdk}
      → ArePayable s
      → set_contract_metadata sdk contract_admin s sender contract updates ≡ ok s'
      → HasRight s sender contract
        × (ArePayable s'
            × ((c : Bytes) → c ≢ contract → get s'.contract_metadata c ≡ get s.contract_metadata c))
  unfolding base_metadata
  set_contract_metadata-ArePayable s sender contract updates {s'} v h =
      elim (Option-cases (get s.contract_metadata contract)) [
        | inr (old, found) ↦
            let (owner, fine, e) = set_old s sender contract updates old found h in
            (
              inl (old, found, owner),
              stored-ArePayable s s' contract _ e
                  (updated-IsPayable old updates (v contract old found)
                    (checked updates.rewards_address fine))
                  v,
            )
        | inl found ↦ elim (Option-cases (contract_admin contract)) [
          | inl bad ↦ absurd (no_contract bad)
          | inr (admin, has_admin) ↦
              let (owner, fine, e) = set_new s sender contract updates admin has_admin found h in
              (
                inr (found, has_admin ∙ ap some owner),
                stored-ArePayable s s' contract _ e
                    (updated-IsPayable
                      (base_metadata sdk contract_admin none (to_bech32 contract)
                        (to_bech32 sender))
                      updates (new-IsPayable (to_bech32 contract) (to_bech32 sender))
                      (checked updates.rewards_address fine))
                    v,
              )
        ]
      ]
    where
      no_contract : contract_admin contract ≡ none → ⊥
      no_contract bad = none_fails s sender contract updates bad h
