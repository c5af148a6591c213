-- ===== src/Cwerrors/Stored.antt =====
-- An error that is set is stored or called back.
use archway.Common.{
  ℕ, suc, ◌+◌, ◌^◌, ◌≡◌, ◌≢◌, ◌<◌, refl, sym, subst, ◌∙◌, true, false, none, some, Option-cases,
  inl, inr, ◌⊎◌, Bool-cases, ok, arith,
}
use archway.Common.Key.{Bytes, ◌==◌, nat_key, bytes_eq_iff, bytes_key}
use archway.Common.Int.{ℤ, int_key, eqb_ℤ_iff, ◌+ℤ◌}
use archway.Common.Store.{get, set, get-set, get-set_self, set-Keyed}
use archway.Sdk.{Sdk}
use archway.Cwerrors.SudoError.{SudoError}
use archway.Cwerrors.State.{Params, State, Keepers, contract_error_key, deletion_key}
use archway.Cwerrors.Errors.{
  store_error_in_state, set_error, has_subscription, store_error_callback,
}
use archway.Cwerrors.Queue.{IsQueued, IsError}

module _ (sdk : Sdk) (keepers : Keepers sdk) where
  open sdk use {from_bech32}
  open keepers use {World}

  -- An identifier that is not given out is in no store.
  unused :
      (s : State sdk World) (id : ℕ) (v : IsQueued sdk keepers s)
      → s.error_id ≡ id
      → (get s.errors id ≡ none)
        × ((h : ℤ) → get s.deletion_blocks (h, id) ≢ some tt)
        × ((c : Bytes) → get s.contract_errors (c, id) ≢ some tt)
  unused s id v e =
      let absent : (x : SudoError) → get s.errors id ≡ some x → ⊥ =
        λ x f. omega (arith, v.fresh id x f, e) in
      (
        elim (Option-cases (get s.errors id)) [ inl no' ↦ no' | inr (x, f) ↦ absurd (absent x f) ],
        λ h f. let (_, (x, g, _)) = v.stored h id f in absent x g,
        λ c f. let (x, g, _) = v.listed c id f in absent x g,
      )

  -- The state with an error stored under the next identifier.
  abbrev pub with_error : State sdk World → ℤ → Bytes → SudoError → State sdk World
  with_error s deletion_height c e = record s {
    error_id = suc s.error_id;
    contract_errors = set s.contract_errors (c, s.error_id) tt;
    deletion_blocks = set s.deletion_blocks (deletion_height, s.error_id) tt;
    errors = set s.errors s.error_id e;
  }

  IsError-new :
      (s : State sdk World) (h : ℤ) (c c' : Bytes) (e : SudoError) (id : ℕ)
      → (s.error_id == id) ≡ false
      → IsError sdk keepers s id c'
      → IsError sdk keepers (with_error s h c e) id c'
  IsError-new s h c c' e id other (x, found, parsed) =
      (x, ground (arith, get-set s.errors s.error_id e id), parsed)

  queued_before :
      (s : State sdk World) (h k : ℤ) (id : ℕ)
      → (s.error_id == id) ≡ false
      → get (set s.deletion_blocks (h, s.error_id) tt) (k, id) ≡ some tt
      → get s.deletion_blocks (k, id) ≡ some tt
  queued_before s h k id other f =
      ground (arith, get-set s.deletion_blocks (h, s.error_id) tt (k, id))

  listed_before :
      (s : State sdk World) (c c' : Bytes) (id : ℕ)
      → (s.error_id == id) ≡ false
      → get (set s.contract_errors (c, s.error_id) tt) (c', id) ≡ some tt
      → get s.contract_errors (c', id) ≡ some tt
  listed_before s c c' id other f =
      ground (arith, get-set s.contract_errors (c, s.error_id) tt (c', id))

  queued_new :
      (s : State sdk World) (v : IsQueued sdk keepers s) (h k : ℤ) (id : ℕ)
      → (s.error_id == id) ≡ true
      → get (set s.deletion_blocks (h, s.error_id) tt) (k, id) ≡ some tt
      → k ≡ h
  queued_new s v h k id same f =
      let at : s.error_id ≡ id = (nat_key.eq_iff s.error_id id).0 same in
      ground (
        arith,
        get-set s.deletion_blocks (h, s.error_id) tt (k, id),
        eqb_ℤ_iff h k,
        (unused s id v at).1 k,
      )

  listed_new :
      (s : State sdk World) (v : IsQueued sdk keepers s) (c c' : Bytes) (id : ℕ)
      → (s.error_id == id) ≡ true
      → get (set s.contract_errors (c, s.error_id) tt) (c', id) ≡ some tt
      → c' ≡ c
  listed_new s v c c' id same f =
      let at : s.error_id ≡ id = (nat_key.eq_iff s.error_id id).0 same in
      ground (
        arith,
        get-set s.contract_errors (c, s.error_id) tt (c', id),
        bytes_eq_iff c c',
        (unused s id v at).2 c',
      )

  here :
      (s : State sdk World) (h : ℤ) (c c' : Bytes) (e : SudoError) (id : ℕ)
      → (s.error_id == id) ≡ true
      → from_bech32 e.contract_address ≡ some c
      → c' ≡ c
      → IsError sdk keepers (with_error s h c e) id c'
  here s h c c' e id same parsed f =
      (e, ground (arith, get-set s.errors s.error_id e id), ground (arith, parsed, f))

  pub with_error-IsQueued :
      (s : State sdk World) (h : ℤ) (c : Bytes) (e : SudoError)
      → IsQueued sdk keepers s
      → from_bech32 e.contract_address ≡ some c
      → IsQueued sdk keepers (with_error s h c e)
  with_error-IsQueued s h c e v parsed = record {
    keyed = set-Keyed s.deletion_blocks (h, s.error_id) tt v.keyed;
    stored = λ k id f. elim (Bool-cases (s.error_id == id)) [
      | inl same ↦ (c, here s h c c e id same parsed refl)
      | inr other ↦
          let (c', x) = v.stored k id (queued_before s h k id other f) in
          (c', IsError-new s h c c' e id other x)
    ];
    once = λ k k' id f f'. elim (Bool-cases (s.error_id == id)) [
      | inl same ↦ queued_new s v h k id same f ∙ sym (queued_new s v h k' id same f')
      | inr other ↦
          v.once k k' id (queued_before s h k id other f) (queued_before s h k' id other f')
    ];
    listed = λ c' id f. elim (Bool-cases (s.error_id == id)) [
      | inl same ↦ here s h c c' e id same parsed (listed_new s v c c' id same f)
      | inr other ↦
          IsError-new s h c c' e id other (v.listed c' id (listed_before s c c' id other f))
    ];
    indexed = λ id x c' f at. elim (Bool-cases (s.error_id == id)) [
      | inl same ↦ ground (
        arith,
        get-set s.errors s.error_id e id,
        get-set s.contract_errors (c, s.error_id) tt (c', id),
        f,
        at,
        parsed,
        bytes_eq_iff c c',
      )
      | inr other ↦ ground (
        arith,
        get-set s.contract_errors (c, s.error_id) tt (c', id),
        v.indexed id x c' (ground (arith, get-set s.errors s.error_id e id, f)) at,
      )
    ];
    queued = λ id x f. elim (Bool-cases (s.error_id == id)) [
      | inl same ↦
          (h, ground (arith, get-set s.deletion_blocks (h, s.error_id) tt (h, id), eqb_ℤ_iff h h))
      | inr other ↦
          let (k, there) = v.queued id x (ground (arith, get-set s.errors s.error_id e id, f)) in
          (k, ground (arith, get-set s.deletion_blocks (h, s.error_id) tt (k, id), there))
    ];
    fresh = λ id x f. elim (Bool-cases (s.error_id == id)) [
      | inl same ↦ ground arith
      | inr other ↦ ground (arith, v.fresh id x, get-set s.errors s.error_id e id)
    ];
  }

  -- Where an error that was set is found: with its contract subscribed, in the queue of callbacks, and
  -- otherwise in the state, in the index of its contract and with its deletion queued.
  abbrev pub IsKept : ℤ → Params → State sdk World → SudoError → Bytes → State sdk World → Type 0
  IsKept h p s e c s' =
      ((has_subscription sdk keepers s c ≡ true)
        × (get s'.error_callbacks s.error_id ≡ some e)
        × (s'.errors ≡ s.errors))
      ⊎ ((has_subscription sdk keepers s c ≡ false)
          × (get s'.errors s.error_id ≡ some e)
          × (get s'.contract_errors (c, s.error_id) ≡ some tt)
          × (get s'.deletion_blocks (h +ℤ p.error_stored_time, s.error_id) ≡ some tt))

  stored_at :
      (h : ℤ) (s : State sdk World) (e : SudoError) (p : Params) (c : Bytes) {s' : State sdk World}
      → s.params ≡ some p
      → s.error_id + 1 < 2 ^ 64
      → store_error_in_state sdk keepers h s c e ≡ ok s'
      → s' ≡ with_error s (h +ℤ p.error_stored_time) c e
  unfolding store_error_in_state
  stored_at h s e p c has_params fits ran = ground arith

  called_back :
      (s : State sdk World) (e : SudoError)
      → s.error_id + 1 < 2 ^ 64
      → IsQueued sdk keepers s
      → IsQueued sdk keepers (store_error_callback sdk keepers s e)
  unfolding store_error_callback
  called_back s e fits v = record {
    keyed = v.keyed;
    stored = v.stored;
    once = v.once;
    listed = v.listed;
    indexed = v.indexed;
    queued = v.queued;
    fresh = λ id x f. omega (arith, v.fresh id x f);
  }

  -- The two ends of a call that went through.
  set_error_at :
      (h : ℤ) (s : State sdk World) (e : SudoError) (c : Bytes) {s' : State sdk World}
      → from_bech32 e.contract_address ≡ some c
      → set_error sdk keepers h s e ≡ ok s'
      → ((has_subscription sdk keepers s c ≡ true) × (store_error_callback sdk keepers s e ≡ s'))
        ⊎ ((has_subscription sdk keepers s c ≡ false)
            × (store_error_in_state sdk keepers h s c e ≡ ok s'))
  unfolding set_error
  set_error_at h s e c parsed ran = elim (Bool-cases (has_subscription sdk keepers s c)) [
    | inl on ↦ inl (on, ground arith)
    | inr off ↦ inr (off, ground arith)
  ]

  has_contract :
      (h : ℤ) (s : State sdk World) (e : SudoError) {s' : State sdk World}
      → set_error sdk keepers h s e ≡ ok s'
      → (c : Bytes) × (from_bech32 e.contract_address ≡ some c)
  unfolding set_error
  has_contract h s e ran = elim (Option-cases (from_bech32 e.contract_address)) [
    | inl bad ↦ ground arith
    | inr x ↦ x
  ]

  -- An error that is set is kept for a callback when its contract has a subscription, and is otherwise
  -- stored, indexed under its contract and queued for deletion at its height; every stored error still
  -- has its entries in the index and the queue, and every entry its error.
  -- The next identifier is one that a uint64 holds.
  pub set_error-IsQueued :
      (h : ℤ) (s : State sdk World) (e : SudoError) (p : Params) {s' : State sdk World}
      → IsQueued sdk keepers s
      → s.params ≡ some p
      → s.error_id + 1 < 2 ^ 64
      → set_error sdk keepers h s e ≡ ok s'
      → IsQueued sdk keepers s'
        × ((c : Bytes) × (from_bech32 e.contract_address ≡ some c) × IsKept h p s e c s')
  unfolding store_error_callback
  set_error-IsQueued h s e p {s'} v has_params fits ran =
      let (c, parsed) = has_contract h s e ran in
      elim (set_error_at h s e c parsed ran) [
        | inl (on, at) ↦ (
          subst (IsQueued sdk keepers) at (called_back s e fits v),
          (
            c,
            parsed,
            inl (on, rw (← at) (get-set_self s.error_callbacks s.error_id e), rw (← at) refl),
          ),
        )
        | inr (off, at) ↦
            let same = stored_at h s e p c has_params fits at in
            (
              subst (IsQueued sdk keepers) (sym same)
                  (with_error-IsQueued s (h +ℤ p.error_stored_time) c e v parsed),
              (
                c,
                parsed,
                inr (
                  off,
                  rw same (get-set_self s.errors s.error_id e),
                  rw same (get-set_self s.contract_errors (c, s.error_id) tt),
                  rw same
                      (get-set_self s.deletion_blocks (h +ℤ p.error_stored_time, s.error_id) tt),
                ),
              ),
            )
      ]
