-- ===== src/Tracking/Listing.antt =====
-- What an index of x/tracking lists under a key: the objects that belong to it, each once.
use archway.Common.{
  ℕ, ◌+◌, ◌≡◌, ◌≢◌, refl, sym, subst, ◌∙◌, true, false, none, some, Bool-cases, inl, inr, arith,
  List, [], ◌∷◌, map, select, All,
}
use archway.Common.Key.{◌==◌, nat_key}
use archway.Common.Store.{
  Store, Keyed, get, remove, get-remove, remove-Keyed, select-IsPartOf, select-All-keys,
  select-Keyed, total, total-remove,
}
use archway.Tracking.Records.{index_key, ids_of, remove_objects}
use archway.Tracking.Homed.{Index, IsHomed}
use archway.Tracking.Cascade.{contains, listed_at}
use archway.Tracking.Finalize.{AreFound}

-- An entry is listed.
pub get-ids_of :
    (index : Index) (key id : ℕ)
    → get index (key, id) ≡ some tt
    → contains (ids_of index key) id ≡ true
unfolding get contains
get-ids_of [] key id h = cc
get-ids_of (((k, i), u) ∷ index) key id h = ground (
  arith,
  get-ids_of index key id,
  index_key.eq_iff (key, id) (k, i),
  nat_key.eq_iff k key,
  nat_key.eq_iff i id,
)

abbrev IsPart : Index → ℕ → Index → Type 0
IsPart index key part =
    All (λ (x : (ℕ × ℕ) × Unit {0}). get index x.0 ≡ some x.1) part
    × All (λ (x : (ℕ × ℕ) × Unit {0}). (x.0.0 == key) ≡ true) part

select-IsPart :
    (index : Index) (key : ℕ)
    → Keyed index
    → IsPart index key (select (λ (x : (ℕ × ℕ) × Unit {0}). x.0.0 == key) index)
select-IsPart index key keyed =
    let p = λ (k : ℕ × ℕ). k.0 == key in (select-IsPartOf p index keyed, select-All-keys p index)

module _ {A : Type 0} (home : A → ℕ) where
  -- An object is listed under its own key alone.
  pub contains-ids_of :
      (last : ℕ) (index : Index) (objs : Store ℕ A) (key id : ℕ) (o : A)
      → IsHomed home last index objs
      → get objs id ≡ some o
      → contains (ids_of index key) id ≡ (home o == key)
  contains-ids_of last index objs key id o v here = elim (Bool-cases (home o == key)) [
    | inl same ↦
        let e : home o ≡ key = (nat_key.eq_iff (home o) key).0 same in
        get-ids_of index key id (subst (λ k. get index (k, id) ≡ some tt) e (v.listed id o here))
        ∙ sym same
    | inr other ↦ elim (Bool-cases (contains (ids_of index key) id)) [
      | inl listed ↦
          let (there, keys) = select-IsPart index key v.keyed in
          let (q, again, at) = v.found key id (
            listed_at index (select (λ (x : (ℕ × ℕ) × Unit {0}). x.0.0 == key) index) key id there
              keys listed) in
          ground (arith, here, again, at, other, nat_key.eq_iff (home o) key)
      | inr out ↦ out ∙ sym other
    ]
  ]

  -- Nothing else is listed.
  pub contains-ids_of-none :
      (last : ℕ) (index : Index) (objs : Store ℕ A) (key id : ℕ)
      → IsHomed home last index objs
      → get objs id ≡ none
      → contains (ids_of index key) id ≡ false
  contains-ids_of-none last index objs key id v absent =
      elim (Bool-cases (contains (ids_of index key) id)) [
        | inl listed ↦
            let (there, keys) = select-IsPart index key v.keyed in
            let (q, again, at) = v.found key id (
              listed_at index (select (λ (x : (ℕ × ℕ) × Unit {0}). x.0.0 == key) index) key id there
                keys listed) in
            ground (arith, absent, again)
        | inr out ↦ out
      ]

  AreHome-part :
      (last : ℕ) (index : Index) (objs : Store ℕ A) (key : ℕ) (part : Index) (os : List A)
      → IsHomed home last index objs
      → IsPart index key part
      → AreFound objs (map (λ (x : (ℕ × ℕ) × Unit {0}). x.0.1) part) os
      → All (λ (o : A). (home o ≡ key) × ((i : ℕ) × (get objs i ≡ some o))) os
  AreHome-part last index objs key [] [] v p found = tt
  AreHome-part last index objs key [] (o ∷ os) v p found = absurd found
  AreHome-part last index objs key (x ∷ part) [] v p found = absurd found
  AreHome-part last index objs key (((k, i), u) ∷ part) (o ∷ os) v ((there, h), (at, same))
        (here, found) =
      let (q, again, of_k) = v.found k i there in
      (
        (ground (arith, again, here, of_k, nat_key.eq_iff k key, at), (i, here)),
        AreHome-part last index objs key part os v (h, same) found,
      )

  -- What is listed under a key belongs to it.
  pub AreHome :
      (last : ℕ) (index : Index) (objs : Store ℕ A) (key : ℕ) (os : List A)
      → IsHomed home last index objs
      → AreFound objs (ids_of index key) os
      → All (λ (o : A). (home o ≡ key) × ((i : ℕ) × (get objs i ≡ some o))) os
  AreHome last index objs key os v found =
      AreHome-part last index objs key (select (λ (x : (ℕ × ℕ) × Unit {0}). x.0.0 == key) index) os
        v (select-IsPart index key v.keyed) found

-- A property of what was found, at one of the identifiers.
pub All-found :
    {A : Type 0} (P : A → Type 0) (objs : Store ℕ A) (ids : List ℕ) (os : List A) (id : ℕ) (o : A)
    → AreFound objs ids os
    → contains ids id ≡ true
    → get objs id ≡ some o
    → All P os
    → P o
unfolding contains
All-found P objs [] os id o found inside here all = cc
All-found P objs (i ∷ ids) [] id o found inside here all = absurd found
All-found P objs (i ∷ ids) (x ∷ os) id o (at, found) inside here (p, all) =
    elim (Bool-cases (i == id)) [
      | inl same ↦
          let e : x ≡ o = ground (arith, at, here, nat_key.eq_iff i id, same) in subst P e p
      | inr other ↦ All-found P objs ids os id o found (ground (arith, inside, other)) here all
    ]

-- No identifier twice.
abbrev Distinct : List ℕ → Type 0
Distinct [] = Unit
Distinct (i ∷ ids) = All (λ j. j ≢ i) ids × Distinct ids

not_again :
    (key i : ℕ) (part : Index)
    → All (λ (x : (ℕ × ℕ) × Unit {0}). (x.0.0 == key) ≡ true) part
    → get part (key, i) ≡ none
    → All (λ j. j ≢ i) (map (λ (x : (ℕ × ℕ) × Unit {0}). x.0.1) part)
unfolding get
not_again key i [] same absent = tt
not_again key i (((k, j), u) ∷ part) (at, same) absent = (
  λ e.
      ground (arith, e, absent, at, nat_key.eq_iff key k, nat_key.eq_iff k key, nat_key.eq_iff i j),
  not_again key i part same (ground (arith, absent)),
)

part-Distinct :
    (key : ℕ) (part : Index)
    → Keyed part
    → All (λ (x : (ℕ × ℕ) × Unit {0}). (x.0.0 == key) ≡ true) part
    → Distinct (map (λ (x : (ℕ × ℕ) × Unit {0}). x.0.1) part)
part-Distinct key [] keyed same = tt
part-Distinct key (((k, i), u) ∷ part) (absent, keyed) (at, same) =
    let e : k ≡ key = (nat_key.eq_iff k key).0 at in
    (
      not_again key i part same (subst (λ j. get part (j, i) ≡ none) e absent),
      part-Distinct key part keyed same,
    )

pub ids_of-Distinct : (index : Index) (key : ℕ) → Keyed index → Distinct (ids_of index key)
ids_of-Distinct index key keyed =
    let p = λ (k : ℕ × ℕ). k.0 == key in
    part-Distinct key (select (λ (x : (ℕ × ℕ) × Unit {0}). p x.0) index)
      (select-Keyed p index keyed) (select-All-keys p index)

AreFound-remove :
    {A : Type 0} (objs : Store ℕ A) (i : ℕ) (ids : List ℕ) (os : List A)
    → All (λ j. j ≢ i) ids
    → AreFound objs ids os
    → AreFound (remove objs i) ids os
AreFound-remove objs i [] [] apart found = tt
AreFound-remove objs i [] (o ∷ os) apart found = absurd found
AreFound-remove objs i (j ∷ ids) [] apart found = absurd found
AreFound-remove objs i (j ∷ ids) (o ∷ os) (differs, apart) (here, found) = (
  ground (arith, get-remove objs i j, nat_key.eq_iff i j, here, differs),
  AreFound-remove objs i ids os apart found,
)

-- A sum over found objects, out of the sum over all.
unfoldable pub sum_of : {A : Type 0} → (A → ℕ) → List A → ℕ
sum_of g [] = 0
sum_of g (o ∷ os) = g o + sum_of g os

pub total-found :
    {A : Type 0} (g : A → ℕ) (objs : Store ℕ A) (ids : List ℕ) (os : List A)
    → Keyed objs
    → Distinct ids
    → AreFound objs ids os
    → total (λ k o. g o) objs ≡ sum_of g os + total (λ k o. g o) (remove_objects objs ids)
unfolding sum_of
total-found g objs [] [] keyed apart found = omega arith
total-found g objs [] (o ∷ os) keyed apart found = absurd found
total-found g objs (i ∷ ids) [] keyed apart found = absurd found
total-found g objs (i ∷ ids) (o ∷ os) keyed (differs, apart) (here, found) = omega (
  arith,
  total-remove (λ k x. g x) objs i o keyed here,
  total-found g (remove objs i) ids os (remove-Keyed objs i keyed) apart
      (AreFound-remove objs i ids os differs found),
)

pub total_zero :
    {A : Type 0} (g : A → ℕ) (m : Store ℕ A)
    → Keyed m
    → ((k : ℕ) (o : A) → get m k ≡ some o → g o ≡ 0)
    → total (λ k o. g o) m ≡ 0
unfolding get
total_zero g [] keyed h = refl
total_zero g ((k, o) ∷ m) (absent, keyed) h =
    let here : g o ≡ 0 = h k o (ground (arith, nat_key.eq_iff k k)) in
    let rest =
      total_zero g m keyed (λ j x at. h j x (ground (arith, at, absent, nat_key.eq_iff j k))) in
    omega (arith, here, rest)
