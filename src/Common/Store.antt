-- ===== src/Common/Store.antt =====
-- A key-value store of the state machine: the entries, in the order in which they are iterated.
use Prim.Native.Nat.{ℕ, ◌+◌, ◌≤◌}
use mathlib.Core.Path.{◌≡◌, refl}
use mathlib.Core.Bool.{Bool, true, false}
use mathlib.Core.Option.{Option, none, some}
use mathlib.Core.List.{List, [], ◌∷◌}
use native.Mathlib.Omega.{arith}
use archway.Common.Compare.{if◌then◌else◌}
use archway.Common.Lists.{All, select}
use archway.Common.Key.{Key, ◌==◌}

abbrev pub Store : Type 0 → Type 0 → Type 0
Store K V = List (K × V)

module _ {K V : Type 0} ⦃o : Key K⦄ where
  unfoldable pub get : Store K V → K → Option V
  get [] k = none
  get ((j, v) ∷ m) k = if k == j then some v else get m k

  abbrev pub has : Store K V → K → Bool
  has m k = elim (get m k) [ none ↦ false | some _ ↦ true ]

  unfoldable pub remove : Store K V → K → Store K V
  remove [] k = []
  remove ((j, v) ∷ m) k = if k == j then remove m k else (j, v) ∷ remove m k

  -- A new entry goes before the first greater key.
  unfoldable pub add_new : Store K V → K → V → Store K V
  add_new [] k v = (k, v) ∷ []
  add_new ((j, w) ∷ m) k v = if o.lt k j then (k, v) ∷ (j, w) ∷ m else (j, w) ∷ add_new m k v

  unfoldable pub set : Store K V → K → V → Store K V
  unfolding remove add_new
  set m k v = add_new (remove m k) k v

  -- No key stands twice.
  abbrev pub Keyed : Store K V → Type 0
  Keyed [] = Unit
  Keyed ((k, v) ∷ m) = (get m k ≡ none) × Keyed m

  pub get-remove :
      (m : Store K V) (k j : K) → get (remove m k) j ≡ (if k == j then none else get m j)
  unfolding get remove
  get-remove [] k j = ground (arith, o.eq_iff k j)
  get-remove ((i, v) ∷ m) k j =
      ground (arith, o.eq_iff k j, o.eq_iff k i, o.eq_iff j i, get-remove m k j)

  pub get-add_new :
      (m : Store K V) (k : K) (v : V) (j : K)
      → get m k ≡ none
      → get (add_new m k v) j ≡ (if k == j then some v else get m j)
  unfolding get add_new
  get-add_new [] k v j h = ground (arith, o.eq_iff k j, o.eq_iff j k)
  get-add_new ((i, w) ∷ m) k v j h =
      ground (arith, o.eq_iff k j, o.eq_iff j k, o.eq_iff k i, o.eq_iff j i, get-add_new m k v j)

  pub get-set :
      (m : Store K V) (k : K) (v : V) (j : K)
      → get (set m k v) j ≡ (if k == j then some v else get m j)
  unfolding set
  get-set m k v j =
      ground
        (arith, o.eq_iff k k, get-remove m k k, get-remove m k j, get-add_new (remove m k) k v j)

  pub get-set_self : (m : Store K V) (k : K) (v : V) → get (set m k v) k ≡ some v
  get-set_self m k v = ground (arith, get-set m k v k, o.eq_iff k k)

  pub remove-Keyed : (m : Store K V) (k : K) → Keyed m → Keyed (remove m k)
  unfolding remove
  remove-Keyed [] k h = tt
  remove-Keyed ((j, v) ∷ m) k h = ground (arith, remove-Keyed m k h.1, get-remove m k j)

  pub add_new-Keyed :
      (m : Store K V) (k : K) (v : V) → get m k ≡ none → Keyed m → Keyed (add_new m k v)
  unfolding add_new get
  add_new-Keyed [] k v h s = (refl, tt)
  add_new-Keyed ((j, w) ∷ m) k v h s =
      ground (arith, o.eq_iff k j, o.eq_iff j k, add_new-Keyed m k v, get-add_new m k v j)

  pub get-remove_self : (m : Store K V) (k : K) → get (remove m k) k ≡ none
  get-remove_self m k = ground (arith, o.eq_iff k k, get-remove m k k)

  pub set-Keyed : (m : Store K V) (k : K) (v : V) → Keyed m → Keyed (set m k v)
  unfolding set
  set-Keyed m k v h = add_new-Keyed (remove m k) k v (get-remove_self m k) (remove-Keyed m k h)

  -- A removal of what is not there.
  pub remove_absent : (m : Store K V) (k : K) → get m k ≡ none → remove m k ≡ m
  unfolding get remove
  remove_absent [] k h = refl
  remove_absent ((j, v) ∷ m) k h = ground (arith, remove_absent m k)

  -- The sum of a measure of the entries.
  abbrev pub total : (K → V → ℕ) → Store K V → ℕ
  total f [] = 0
  total f ((k, v) ∷ m) = f k v + total f m

  pub total-add_new :
      (f : K → V → ℕ) (m : Store K V) (k : K) (v : V) → total f (add_new m k v) ≡ f k v + total f m
  unfolding add_new
  total-add_new f [] k v = omega arith
  total-add_new f ((j, w) ∷ m) k v = ground (arith, total-add_new f m k v)

  pub total-remove :
      (f : K → V → ℕ) (m : Store K V) (k : K) (v : V)
      → Keyed m
      → get m k ≡ some v
      → total f (remove m k) + f k v ≡ total f m
  unfolding get remove
  total-remove f [] k v s h = cc
  total-remove f ((j, w) ∷ m) k v s h =
      ground (arith, o.eq_iff k j, total-remove f m k v s.1, remove_absent m k)

  pub total-set_new :
      (f : K → V → ℕ) (m : Store K V) (k : K) (v : V)
      → get m k ≡ none
      → total f (set m k v) ≡ f k v + total f m
  unfolding set
  total-set_new f m k v h = rw (remove_absent m k h) (total-add_new f m k v)

  pub total-set_old :
      (f : K → V → ℕ) (m : Store K V) (k : K) (v w : V)
      → Keyed m
      → get m k ≡ some w
      → total f (set m k v) + f k w ≡ f k v + total f m
  unfolding set
  total-set_old f m k v w s h =
      omega (arith, total-add_new f (remove m k) k v, total-remove f m k w s h)

  pub total-ge :
      (f : K → V → ℕ) (m : Store K V) (k : K) (v : V) → get m k ≡ some v → f k v ≤ total f m
  unfolding get
  total-ge f [] k v h = cc
  total-ge f ((j, w) ∷ m) k v h = ground (arith, o.eq_iff k j, total-ge f m k v)

  -- A property of every entry.
  pub All-remove : (P : K × V → Type 0) (m : Store K V) (k : K) → All P m → All P (remove m k)
  unfolding remove
  All-remove P [] k h = tt
  All-remove P ((j, w) ∷ m) k h = ground (arith, All-remove P m k h.1)

  All-add_new :
      (P : K × V → Type 0) (m : Store K V) (k : K) (v : V)
      → P (k, v)
      → All P m
      → All P (add_new m k v)
  unfolding add_new
  All-add_new P [] k v p h = (p, tt)
  All-add_new P ((j, w) ∷ m) k v p h = ground (arith, All-add_new P m k v p h.1)

  pub All-set :
      (P : K × V → Type 0) (m : Store K V) (k : K) (v : V) → P (k, v) → All P m → All P (set m k v)
  unfolding set
  All-set P m k v p h = All-add_new P (remove m k) k v p (All-remove P m k h)

  pub All-get :
      (P : K × V → Type 0) (m : Store K V) (k : K) (v : V) → All P m → get m k ≡ some v → P (k, v)
  unfolding get
  All-get P [] k v h e = cc
  All-get P ((j, w) ∷ m) k v h e = ground (arith, o.eq_iff k j, All-get P m k v h.1)

  -- A part of a store, chosen by its keys.
  pub get-select :
      (p : K → Bool) (m : Store K V) (k : K)
      → get (select (λ (e : K × V). p e.0) m) k ≡ (if p k then get m k else none)
  unfolding get
  get-select p [] k = ground arith
  get-select p ((j, w) ∷ m) k = ground (arith, o.eq_iff k j, get-select p m k)

  pub select-Keyed :
      (p : K → Bool) (m : Store K V) → Keyed m → Keyed (select (λ (e : K × V). p e.0) m)
  select-Keyed p [] h = tt
  select-Keyed p ((j, w) ∷ m) h = ground (arith, select-Keyed p m h.1, get-select p m j)

  -- The entries at hand are those that a lookup finds.
  abbrev pub IsPartOf : Store K V → Store K V → Type 0
  IsPartOf m part = All (λ (e : K × V). get m e.0 ≡ some e.1) part

  IsPartOf-cons :
      (m part : Store K V) (k : K) (v : V)
      → get m k ≡ none
      → IsPartOf m part
      → IsPartOf ((k, v) ∷ m) part
  unfolding get
  IsPartOf-cons m [] k v h q = tt
  IsPartOf-cons m ((j, w) ∷ part) k v h q =
      ground (arith, o.eq_iff j k, IsPartOf-cons m part k v h q.1)

  pub select-IsPartOf :
      (p : K → Bool) (m : Store K V) → Keyed m → IsPartOf m (select (λ (e : K × V). p e.0) m)
  unfolding get
  select-IsPartOf p [] h = tt
  select-IsPartOf p ((j, w) ∷ m) h = ground (
    arith,
    o.eq_iff j j,
    IsPartOf-cons m (select (λ (e : K × V). p e.0) m) j w h.0 (select-IsPartOf p m h.1),
  )

  -- What passes a test on its key passes it in the part.
  pub select-All-keys :
      (p : K → Bool) (m : Store K V)
      → All (λ (e : K × V). p e.0 ≡ true) (select (λ (e : K × V). p e.0) m)
  select-All-keys p [] = tt
  select-All-keys p ((j, w) ∷ m) = ground (arith, select-All-keys p m)
