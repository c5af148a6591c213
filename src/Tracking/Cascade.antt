-- ===== src/Tracking/Cascade.antt =====
-- What the removal of objects with their entries leaves.
use archway.Common.{
  ℕ, ◌≡◌, refl, ◌∙◌, subst, true, false, none, some, Option-cases, Bool-cases, inl, inr, arith,
  List, [], ◌∷◌, map, select, All, ◌||◌, if◌then◌else◌, Bool,
}
use archway.Common.Key.{◌==◌, nat_key}
use archway.Common.Store.{
  Store, Keyed, get, remove, get-remove, remove-Keyed, select-IsPartOf, select-All-keys,
}
use archway.Tracking.Records.{index_key, ids_of, remove_objects, remove_entries}
use archway.Tracking.Homed.{Index, IsHomed}

-- The test of a list of identifiers.
unfoldable pub contains : List ℕ → ℕ → Bool
contains [] id = false
contains (i ∷ ids) id = i == id || contains ids id

pub get-remove_objects :
    {A : Type 0} (objs : Store ℕ A) (ids : List ℕ) (id : ℕ)
    → get (remove_objects objs ids) id ≡ (if contains ids id then none else get objs id)
unfolding contains
get-remove_objects objs [] id = refl
get-remove_objects objs (i ∷ ids) id =
    ground (arith, get-remove_objects (remove objs i) ids id, get-remove objs i id)

pub get-remove_entries :
    (index : Index) (key : ℕ) (ids : List ℕ) (k id : ℕ) {u : Unit {0}}
    → get (remove_entries index key ids) (k, id) ≡ some u
    → get index (k, id) ≡ some u
get-remove_entries index key [] k id h = h
get-remove_entries index key (i ∷ ids) k id h =
    let there = get-remove_entries (remove index (key, i)) key ids k id h in
    ground (arith, there, get-remove index (key, i) (k, id))

pub gone :
    (index : Index) (key : ℕ) (ids : List ℕ) (id : ℕ)
    → contains ids id ≡ true
    → get (remove_entries index key ids) (key, id) ≡ none
unfolding contains
gone index key [] id h = cc
gone index key (i ∷ ids) id h = elim (Bool-cases (contains ids id)) [
  | inl later ↦ gone (remove index (key, i)) key ids id later
  | inr other ↦
      elim (Option-cases (get (remove_entries (remove index (key, i)) key ids) (key, id))) [
        | inl absent ↦ absent
        | inr (u, there) ↦
            let before = get-remove_entries (remove index (key, i)) key ids key id there in
            ground (
              arith,
              before,
              get-remove index (key, i) (key, id),
              index_key.eq_iff (key, i) (key, id),
              nat_key.eq_iff i id,
            )
      ]
]

remove_entries-Keyed :
    (index : Index) (key : ℕ) (ids : List ℕ) → Keyed index → Keyed (remove_entries index key ids)
remove_entries-Keyed index key [] h = h
remove_entries-Keyed index key (i ∷ ids) h =
    remove_entries-Keyed (remove index (key, i)) key ids (remove-Keyed index (key, i) h)

pub remove_objects-Keyed :
    {A : Type 0} (objs : Store ℕ A) (ids : List ℕ) → Keyed objs → Keyed (remove_objects objs ids)
remove_objects-Keyed objs [] h = h
remove_objects-Keyed objs (i ∷ ids) h =
    remove_objects-Keyed (remove objs i) ids (remove-Keyed objs i h)

-- What is not removed stays.
left :
    (index : Index) (key : ℕ) (ids : List ℕ) (k id : ℕ)
    → contains ids id ≡ false
    → get (remove_entries index key ids) (k, id) ≡ get index (k, id)
unfolding contains
left index key [] k id h = refl
left index key (i ∷ ids) k id h = ground (
  arith,
  left (remove index (key, i)) key ids k id,
  get-remove index (key, i) (k, id),
  h,
  nat_key.eq_iff i id,
)

-- The identifiers listed under a key are those of its entries.
pub listed_at :
    (index part : Index) (key id : ℕ)
    → All (λ (x : (ℕ × ℕ) × Unit {0}). get index x.0 ≡ some x.1) part
    → All (λ (x : (ℕ × ℕ) × Unit {0}). (x.0.0 == key) ≡ true) part
    → contains (map (λ (x : (ℕ × ℕ) × Unit {0}). x.0.1) part) id ≡ true
    → get index (key, id) ≡ some tt
unfolding contains
listed_at index [] key id h same c = cc
listed_at index (((k, i), u) ∷ part) key id (there, h) (at, same) c =
    ground
      (arith, listed_at index part key id h same, nat_key.eq_iff k key, nat_key.eq_iff i id, there)

-- All objects under a key, removed with their entries.
pub cascade-IsHomed :
    {A : Type 0} (home : A → ℕ) (last : ℕ) (index : Index) (objs : Store ℕ A) (key : ℕ)
    → IsHomed home last index objs
    → IsHomed home last
        (remove_entries index key (ids_of index key))
        (remove_objects objs (ids_of index key))
cascade-IsHomed {A} home last index objs key v =
    let ids = ids_of index key in
    let p = λ (k : ℕ × ℕ). k.0 == key in
    record {
      keyed = remove_entries-Keyed index key ids v.keyed;
      found = λ k id there.
          let before = get-remove_entries index key ids k id there in
          let (o, here, at) = v.found k id before in
          elim (Bool-cases (contains ids id)) [
            | inl listed ↦
                let (q, again, home_key) = v.found key id (
                  listed_at index (select (λ (x : (ℕ × ℕ) × Unit {0}). p x.0) index) key id
                    (select-IsPartOf p index v.keyed) (select-All-keys p index) listed) in
                let same : k ≡ key = ground (arith, here, again, at, home_key) in
                ground (
                  arith,
                  subst (λ j. get (remove_entries index key ids) (j, id) ≡ some tt) same there,
                  gone index key ids id listed,
                )
            | inr other ↦ (o, ground (arith, get-remove_objects objs ids id, here), at)
          ];
      stored_once = remove_objects-Keyed objs ids v.stored_once;
      listed = λ id o at.
          let there : get objs id ≡ some o = ground (arith, get-remove_objects objs ids id, at) in
          let out : contains ids id ≡ false = ground (arith, get-remove_objects objs ids id, at) in
          left index key ids (home o) id out ∙ v.listed id o there;
      bounded = λ id o at. v.bounded id o (ground (arith, get-remove_objects objs ids id, at));
    }
