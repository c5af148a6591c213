-- ===== src/Tracking/Homed.antt =====
-- The objects of x/tracking and their index, as pairs of stores: what an addition does.
use archway.Common.{ℕ, ◌+◌, ◌≤◌, ◌≡◌, none, some, Option-cases, Bool-cases, inl, inr, arith}
use archway.Common.Key.{◌==◌, nat_key}
use archway.Common.Store.{Store, Keyed, get, set, get-set, set-Keyed}
use archway.Tracking.Records.{index_key}

abbrev pub Index : Type 0
Index = Store (ℕ × ℕ) (Unit {0})

-- Every entry of the index leads to an object of its key, every object has its entry, nothing is stored
-- twice, and the identifiers are at most the last.
pub record IsHomed {A : Type 0} (home : A → ℕ) (last : ℕ) (index : Index) (objs : Store ℕ A)
    : Type 0 where
  pub keyed : Keyed index
  pub found :
      (key id : ℕ)
      → get index (key, id) ≡ some tt
      → (o : A) × (get objs id ≡ some o) × (home o ≡ key)
  pub stored_once : Keyed objs
  pub listed : (id : ℕ) (o : A) → get objs id ≡ some o → get index (home o, id) ≡ some tt
  pub bounded : (id : ℕ) (o : A) → get objs id ≡ some o → id ≤ last

module _ {A : Type 0} (home : A → ℕ) where
  -- An object with the next identifier.
  pub add-IsHomed :
      (last : ℕ) (index : Index) (objs : Store ℕ A) (o : A)
      → IsHomed home last index objs
      → IsHomed home (last + 1) (set index (home o, last + 1) tt) (set objs (last + 1) o)
  add-IsHomed last index objs o v = record {
    keyed = set-Keyed index (home o, last + 1) tt v.keyed;
    found = λ key id there. elim (Bool-cases ((last + 1) == id)) [
      | inl new ↦ (
        o,
        ground (arith, get-set objs (last + 1) o id),
        elim (Option-cases (get index (key, id))) [
          | inl absent ↦ ground (
            arith,
            get-set index (home o, last + 1) tt (key, id),
            index_key.eq_iff (home o, last + 1) (key, id),
          )
          | inr (u, old) ↦
              let (p, here, at) = v.found key id old in
              ground (arith, v.bounded id p here, nat_key.eq_iff (last + 1) id)
        ],
      )
      | inr other ↦
          let (p, here, at) = v.found key id (
            ground (
              arith,
              get-set index (home o, last + 1) tt (key, id),
              index_key.eq_iff (home o, last + 1) (key, id),
              nat_key.eq_iff (last + 1) id,
            )) in
          (p, ground (arith, get-set objs (last + 1) o id), at)
    ];
    stored_once = set-Keyed objs (last + 1) o v.stored_once;
    listed = λ id p here. elim (Bool-cases ((last + 1) == id)) [
      | inl new ↦ ground (
        arith,
        here,
        get-set objs (last + 1) o id,
        get-set index (home o, last + 1) tt (home p, id),
        index_key.eq_iff (home o, last + 1) (home p, id),
        nat_key.eq_iff (last + 1) id,
      )
      | inr other ↦ ground (
        arith,
        v.listed id p (ground (arith, here, get-set objs (last + 1) o id)),
        get-set index (home o, last + 1) tt (home p, id),
      )
    ];
    bounded = λ id p here.
        ground (arith, get-set objs (last + 1) o id, nat_key.eq_iff (last + 1) id, v.bounded id p);
  }

  -- An object in the place of one with the same home.
  pub update-IsHomed :
      (last : ℕ) (index : Index) (objs : Store ℕ A) (id : ℕ) (o p : A)
      → get objs id ≡ some o
      → home p ≡ home o
      → IsHomed home last index objs
      → IsHomed home last index (set objs id p)
  update-IsHomed last index objs id o p here same v = record {
    keyed = v.keyed;
    found = λ key i there.
        let (q, at, h) = v.found key i there in
        elim (Bool-cases (id == i)) [
          | inl self ↦ (
            p,
            ground (arith, get-set objs id p i),
            ground (arith, nat_key.eq_iff id i, at, here, h, same),
          )
          | inr other ↦ (q, ground (arith, get-set objs id p i), h)
        ];
    stored_once = set-Keyed objs id p v.stored_once;
    listed = λ i q at. elim (Bool-cases (id == i)) [
      | inl self ↦
          ground (arith, at, get-set objs id p i, nat_key.eq_iff id i, same, v.listed id o here)
      | inr other ↦ v.listed i q (ground (arith, at, get-set objs id p i))
    ];
    bounded = λ i q at.
        ground
          (arith, get-set objs id p i, nat_key.eq_iff id i, v.bounded i q, v.bounded id o here);
  }

-- An object with an identifier that is not in use.
pub insert-IsHomed :
    {A : Type 0} (home : A → ℕ) (last : ℕ) (index : Index) (objs : Store ℕ A) (i : ℕ) (o : A)
    → get objs i ≡ none
    → i ≤ last
    → IsHomed home last index objs
    → IsHomed home last (set index (home o, i) tt) (set objs i o)
insert-IsHomed home last index objs i o new within v = record {
  keyed = set-Keyed index (home o, i) tt v.keyed;
  found = λ key id there. elim (Bool-cases (i == id)) [
    | inl same ↦ (
      o,
      ground (arith, get-set objs i o id),
      elim (Option-cases (get index (key, id))) [
        | inl absent ↦
            ground (
              arith,
              get-set index (home o, i) tt (key, id),
              index_key.eq_iff (home o, i) (key, id),
            )
        | inr (u, old) ↦
            let (p, here, at) = v.found key id old in ground (arith, here, new, nat_key.eq_iff i id)
      ],
    )
    | inr other ↦
        let (p, here, at) = v.found key id (
          ground (
            arith,
            get-set index (home o, i) tt (key, id),
            index_key.eq_iff (home o, i) (key, id),
            nat_key.eq_iff i id,
          )) in
        (p, ground (arith, get-set objs i o id), at)
  ];
  stored_once = set-Keyed objs i o v.stored_once;
  listed = λ id p here. elim (Bool-cases (i == id)) [
    | inl same ↦ ground (
      arith,
      here,
      get-set objs i o id,
      get-set index (home o, i) tt (home p, id),
      index_key.eq_iff (home o, i) (home p, id),
      nat_key.eq_iff i id,
    )
    | inr other ↦ ground (
      arith,
      v.listed id p (ground (arith, here, get-set objs i o id)),
      get-set index (home o, i) tt (home p, id),
    )
  ];
  bounded = λ id p here. ground (arith, get-set objs i o id, nat_key.eq_iff i id, v.bounded id p);
}
