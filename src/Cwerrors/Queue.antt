-- ===== src/Cwerrors/Queue.antt =====
-- The errors in the state, their index by contract and the queue of their deletion agree.
use archway.Common.{
  ℕ, ◌≡◌, ◌<◌, refl, ap, sym, true, false, none, some, inl, inr, Bool-cases, ok, arith,
  if◌then◌else◌, List, [], ◌∷◌, map, select, All,
}
use archway.Common.Key.{Bytes, ◌==◌, nat_key, bytes_eq_iff, bytes_key}
use archway.Common.Int.{ℤ, int_key, eqb_ℤ_iff}
use archway.Common.Store.{
  Store, Keyed, get, has, remove, get-remove, remove-Keyed, get-select, select-Keyed,
  select-All-keys, select-IsPartOf,
}
use archway.Sdk.{Sdk}
use archway.Cwerrors.SudoError.{SudoError}
use archway.Cwerrors.State.{State, Keepers, contract_error_key, deletion_key}
use archway.Cwerrors.Errors.{prune_error, prune_each, prune_errors_current_block}

module _ (sdk : Sdk) (keepers : Keepers sdk) where
  open sdk use {from_bech32}
  open keepers use {World}

  -- The error that is stored under an identifier, and its contract.
  abbrev pub IsError : State sdk World → ℕ → Bytes → Type 0
  IsError s id c =
      (e : SudoError) × (get s.errors id ≡ some e) × (from_bech32 e.contract_address ≡ some c)

  -- Every entry of the index and of the queue leads to its error, and every stored error has its entry in
  -- the index and one in the queue.
  pub record IsQueued (s : State sdk World) : Type 0 where
    pub keyed : Keyed s.deletion_blocks
    pub stored :
        (h : ℤ) (id : ℕ) → get s.deletion_blocks (h, id) ≡ some tt → (c : Bytes) × IsError s id c
    pub once :
        (h k : ℤ) (id : ℕ)
        → get s.deletion_blocks (h, id) ≡ some tt
        → get s.deletion_blocks (k, id) ≡ some tt
        → h ≡ k
    pub listed : (c : Bytes) (id : ℕ) → get s.contract_errors (c, id) ≡ some tt → IsError s id c
    pub indexed :
        (id : ℕ) (e : SudoError) (c : Bytes)
        → get s.errors id ≡ some e
        → from_bech32 e.contract_address ≡ some c
        → get s.contract_errors (c, id) ≡ some tt
    pub queued :
        (id : ℕ) (e : SudoError)
        → get s.errors id ≡ some e
        → (h : ℤ) × (get s.deletion_blocks (h, id) ≡ some tt)
    pub fresh : (id : ℕ) (e : SudoError) → get s.errors id ≡ some e → id < s.error_id

  -- The state without one error.
  abbrev without : State sdk World → ℤ → ℕ → Bytes → State sdk World
  without s h id c = record s {
    errors = remove s.errors id;
    contract_errors = remove s.contract_errors (c, id);
    deletion_blocks = remove s.deletion_blocks (h, id);
  }

  IsError-other :
      (s : State sdk World) (h : ℤ) (id id' : ℕ) (c c' : Bytes)
      → (id == id') ≡ false
      → IsError s id' c'
      → IsError (without s h id c) id' c'
  IsError-other s h id id' c c' other (e, found, parsed) =
      (e, ground (arith, get-remove s.errors id id'), parsed)

  still_queued :
      (s : State sdk World) (h k : ℤ) (id id' : ℕ)
      → IsQueued s
      → get s.deletion_blocks (h, id) ≡ some tt
      → get (remove s.deletion_blocks (h, id)) (k, id') ≡ some tt
      → ((id == id') ≡ false) × (get s.deletion_blocks (k, id') ≡ some tt)
  still_queued s h k id id' v due left = elim (Bool-cases (id == id')) [
    | inl same ↦ absurd (differs same)
    | inr other ↦ (other, ground (arith, get-remove s.deletion_blocks (h, id) (k, id')))
  ]
    where
      differs : (id == id') ≡ true → ⊥
      differs same =
          let e : id ≡ id' = (nat_key.eq_iff id id').0 same in
          ground
            (arith, get-remove s.deletion_blocks (h, id) (k, id'), eqb_ℤ_iff h k, v.once h k id due)

  still_listed :
      (s : State sdk World) (h : ℤ) (id id' : ℕ) (c c' : Bytes)
      → IsQueued s
      → IsError s id c
      → get (remove s.contract_errors (c, id)) (c', id') ≡ some tt
      → ((id == id') ≡ false) × (get s.contract_errors (c', id') ≡ some tt)
  still_listed s h id id' c c' v is_error left = elim (Bool-cases (id == id')) [
    | inl same ↦ absurd (differs same)
    | inr other ↦ (other, ground (arith, get-remove s.contract_errors (c, id) (c', id')))
  ]
    where
      differs : (id == id') ≡ true → ⊥
      differs same =
          let e : id ≡ id' = (nat_key.eq_iff id id').0 same in
          ground (
            arith,
            get-remove s.contract_errors (c, id) (c', id'),
            bytes_eq_iff c c',
            v.listed c' id,
          )

  still_there :
      (s : State sdk World) (id id' : ℕ) {e : SudoError}
      → get (remove s.errors id) id' ≡ some e
      → get s.errors id' ≡ some e
  still_there s id id' left = ground (arith, get-remove s.errors id id', left)

  without-IsQueued :
      (s : State sdk World) (h : ℤ) (id : ℕ) (c : Bytes)
      → IsQueued s
      → get s.deletion_blocks (h, id) ≡ some tt
      → IsError s id c
      → IsQueued (without s h id c)
  without-IsQueued s h id c v due is_error = record {
    keyed = remove-Keyed s.deletion_blocks (h, id) v.keyed;
    stored = λ k id' left.
        let (other, there) = still_queued s h k id id' v due left in
        let (c', e) = v.stored k id' there in (c', IsError-other s h id id' c c' other e);
    once = λ k k' id' left left'.
        v.once k k' id' (still_queued s h k id id' v due left).1
          (still_queued s h k' id id' v due left').1;
    listed = λ c' id' left.
        let (other, there) = still_listed s h id id' c c' v is_error left in
        IsError-other s h id id' c c' other (v.listed c' id' there);
    indexed = λ id' e c' left parsed. ground (
      arith,
      get-remove s.errors id id',
      get-remove s.contract_errors (c, id) (c', id'),
      left,
      v.indexed id' e c' (still_there s id id' left) parsed,
    );
    queued = λ id' e left.
        let (k, there) = v.queued id' e (still_there s id id' left) in
        (
          k,
          ground (
            arith,
            get-remove s.errors id id',
            get-remove s.deletion_blocks (h, id) (k, id'),
            left,
          ),
        );
    fresh = λ id' e left. v.fresh id' e (ground (arith, get-remove s.errors id id'));
  }

  prune_error-IsQueued :
      (s : State sdk World) (h : ℤ) (id : ℕ)
      → IsQueued s
      → get s.deletion_blocks (h, id) ≡ some tt
      → (s' : State sdk World) × (prune_error sdk keepers h s id ≡ ok s')
        × IsQueued s'
        × (s'.deletion_blocks ≡ remove s.deletion_blocks (h, id))
        × (s'.errors ≡ remove s.errors id)
  unfolding prune_error
  prune_error-IsQueued s h id v due =
      let (c, (e, found, parsed)) = v.stored h id due in
      (
        without s h id c,
        rw (found, parsed) refl,
        without-IsQueued s h id c v due (e, found, parsed),
        refl,
        refl,
      )

  -- Entries of the queue for a height.
  abbrev Due : ℤ → State sdk World → (ℤ × ℕ) × Unit {0} → Type 0
  Due h s (key, v) = (key.0 ≡ h) × (get s.deletion_blocks key ≡ some tt)

  Due-without :
      (h : ℤ) (id : ℕ) (s s' : State sdk World) (part : Store (ℤ × ℕ) (Unit {0}))
      → get part (h, id) ≡ none
      → s'.deletion_blocks ≡ remove s.deletion_blocks (h, id)
      → All (Due h s) part
      → All (Due h s') part
  unfolding get
  Due-without h id s s' [] absent e a = tt
  Due-without h id s s' ((key, v) ∷ part) absent e ((same, found), a) = (
    (
      same,
      ground (
        arith,
        ap (λ m. get m key) e,
        get-remove s.deletion_blocks (h, id) key,
        deletion_key.eq_iff (h, id) key,
        deletion_key.eq_iff key (h, id),
      ),
    ),
    Due-without h id s s' part (ground arith) e a,
  )

  abbrev ids : Store (ℤ × ℕ) (Unit {0}) → List ℕ
  ids part = map (λ (x : (ℤ × ℕ) × Unit {0}). x.0.1) part

  prune_each-IsQueued :
      (h : ℤ) (s : State sdk World) (part : Store (ℤ × ℕ) (Unit {0}))
      → IsQueued s
      → Keyed part
      → All (Due h s) part
      → (s' : State sdk World) × (prune_each sdk keepers h s (ids part) ≡ ok s')
        × IsQueued s'
        × ((id : ℕ) → get s'.errors id ≡ (if has part (h, id) then none else get s.errors id))
  unfolding prune_each get
  prune_each-IsQueued h s [] v keyed due = (s, refl, v, λ id. refl)
  prune_each-IsQueued h s (((k, id), u) ∷ part) v (absent, keyed) ((same, found), due) =
      let at : get s.deletion_blocks (h, id) ≡ some tt = rw (← same) found in
      let (t, ran, valid, blocks, errors) = prune_error-IsQueued s h id v at in
      let (s', rest, valid', gone) =
        prune_each-IsQueued h t part valid keyed
          (Due-without h id s t part (rw (← same) absent) blocks due) in
      (
        s',
        rw ran rest,
        valid',
        λ i. ground (
          arith,
          gone i,
          get-remove s.errors id i,
          ap (λ m. get m i) errors,
          nat_key.eq_iff id i,
          nat_key.eq_iff i id,
          eqb_ℤ_iff h k,
          sym same,
        ),
      )

  -- When stored errors, index and queue agree, the end of a block never fails to prune: every
  -- error that is queued for the height is removed, with its entries in the index and the queue,
  -- and no other error.
  pub prune_errors_current_block-IsQueued :
      (h : ℤ) (s : State sdk World)
      → IsQueued s
      → (s' : State sdk World) × (prune_errors_current_block sdk keepers h s ≡ ok s')
        × IsQueued s'
        × ((id : ℕ)
            → get s'.errors id ≡ (if has s.deletion_blocks (h, id) then none else get s.errors id))
  unfolding prune_errors_current_block
  prune_errors_current_block-IsQueued h s v =
      let p = λ (k : ℤ × ℕ). k.0 == h in
      let part = select (λ (x : (ℤ × ℕ) × Unit {0}). p x.0) s.deletion_blocks in
      let (s', ran, valid, gone) =
        prune_each-IsQueued h s part v (select-Keyed p s.deletion_blocks v.keyed) (
          due part (select-All-keys p s.deletion_blocks)
            (select-IsPartOf p s.deletion_blocks v.keyed)) in
      (
        s',
        ran,
        valid,
        λ id. ground (arith, gone id, get-select p s.deletion_blocks (h, id), eqb_ℤ_iff h h),
      )
    where
      due :
          (part : Store (ℤ × ℕ) (Unit {0}))
          → All (λ (x : (ℤ × ℕ) × Unit {0}). (x.0.0 == h) ≡ true) part
          → All (λ (x : (ℤ × ℕ) × Unit {0}). get s.deletion_blocks x.0 ≡ some x.1) part
          → All (Due h s) part
      due [] a b = tt
      due (x ∷ part) a b = (((eqb_ℤ_iff x.0.0 h).0 a.0, b.0), due part a.1 b.1)
