-- ===== src/Objects/Housed.antt =====
-- Where the objects of `ObjectAllocator` live, over any history of `Create` and `Destroy`.
use model_lib.Common.{
  ℕ, zero, suc, ◌+◌, ◌^◌, ◌≤◌, ◌<◌, ◌≡◌, ◌≢◌, refl, sym, not, some, List, [], ◌∷◌, ◌++◌, ◌==◌,
  if◌then◌else◌, keep, sum_by, sum_by-append, arith, ℕ_discrete,
}
use model_lib.Allocate.{Manager, deallocate}
use model_lib.Allocate.Fresh.{Inv, Fresh, allocate-Fresh}
use model_lib.Allocate.History.{allocate-Keeps, deallocate-Keeps}
use model_lib.Allocate.Returning.{deallocate_others, deallocate_runs}
use model_lib.Objects.{Objects, Event, constructs, destructs, create, destroy, construct}

abbrev pub same : ℕ → ℕ → ℕ
same p q = if q == p then 1 else 0

abbrev pub count : ℕ → List ℕ → ℕ
count p = sum_by (same p)

abbrev pub remove : ℕ → List ℕ → List ℕ
remove p = keep (λ q. not (q == p))

-- How often an address was constructed at, and destroyed.
abbrev pub is_constructed : ℕ → Event → ℕ
is_constructed p (constructs q args) = same p q
is_constructed p (destructs q) = 0

abbrev pub is_destructed : ℕ → Event → ℕ
is_destructed p (constructs q args) = 0
is_destructed p (destructs q) = same p q

-- Objects of one size and the addresses of those that live: `Destroy` is called on such an
-- address alone.
pub data Run (size : ℕ) (m : Manager) : Objects → List ℕ → Type 0 where
  starts : Run size m (record { manager = m; trace = [] }) []
  creates :
      {o o' : Objects} {live : List ℕ} {p : ℕ} (args : List ℕ)
      → Run size m o live
      → create size args o ≡ some (o', p)
      → Run size m o' (p ∷ live)
  destroys :
      {o o' : Objects} {live : List ℕ} (p : ℕ)
      → Run size m o live
      → 0 < count p live
      → destroy size p o ≡ some o'
      → Run size m o' (remove p live)

pub record IsHoused (size : ℕ) (o : Objects) (live : List ℕ) : Type 0 where
  pub inv : Inv o.manager
  pub not_null : count 0 live ≡ 0
  pub houses :
      (p : ℕ)
      → 0 < count p live
      → (given : ℕ) × (o.manager.heap.capacity p ≡ some given) × (size ≤ given)
  pub once : (p : ℕ) → count p live ≤ 1
  pub balance :
      (p : ℕ) → sum_by (is_constructed p) o.trace ≡ sum_by (is_destructed p) o.trace + count p live

count-remove_self : (p : ℕ) (live : List ℕ) → count p (remove p live) ≡ 0
count-remove_self p [] = refl
count-remove_self p (q ∷ live) = ground (arith, count-remove_self p live)

count-remove_ne : (p q : ℕ) (live : List ℕ) → q ≢ p → count q (remove p live) ≡ count q live
count-remove_ne p q [] ne = refl
count-remove_ne p q (r ∷ live) ne = ground (arith, count-remove_ne p q live ne)

-- `Destroy` of a block that is not null returns, with its event behind the others.
pub destroy_runs :
    (size p : ℕ) (o : Objects)
    → size ≤ 2 ^ 31
    → 0 < p
    → (m : Manager) × (deallocate p size o.manager ≡ some m)
      × (destroy size p o ≡ some (record { manager = m; trace = o.trace ++ destructs p ∷ [] }))
unfolding destroy
destroy_runs size zero o small h = absurd (omega arith)
destroy_runs size (suc p) o small h =
    let (m, e) = deallocate_runs size (suc p) o.manager small in (m, e, rw e refl)

construct_block :
    (p : ℕ) (args : List ℕ) (o : Objects)
    → p ≢ 0
    → construct p args o ≡ (record o { trace = o.trace ++ constructs p args ∷ [] }, p)
unfolding construct
construct_block zero args o h = absurd (h refl)
construct_block (suc p) args o h = refl

-- `Create` in a fresh block.
create_runs :
    (size : ℕ) (args : List ℕ) (o : Objects) (f : Fresh size o.manager)
    → create size args o
      ≡ some
          (record { manager = f.after; trace = o.trace ++ constructs f.block args ∷ [] }, f.block)
unfolding create
create_runs size args o f =
    rw (f.returns, construct_block f.block args (record o { manager = f.after }) f.not_null) refl

count_new :
    (size : ℕ) (live : List ℕ) (o : Objects) (f : Fresh size o.manager)
    → IsHoused size o live
    → count f.block live ≡ 0
count_new size live o f h = elim (ℕ_discrete (count f.block live) 0) [
  | yes z ↦ z
  | no ne ↦
      let (given, e, _) = h.houses f.block (omega arith) in absurd (ground (arith, e, f.was_free))
]

created-IsHoused :
    (size : ℕ) (args live : List ℕ) (o : Objects) (f : Fresh size o.manager)
    → Inv f.after
    → IsHoused size o live
    → IsHoused size
        (record { manager = f.after; trace = o.trace ++ constructs f.block args ∷ [] })
        (f.block ∷ live)
created-IsHoused size args live o f inv h = record {
  inv = inv;
  not_null = ground (arith, h.not_null, f.not_null);
  houses = λ p some_p. elim (ℕ_discrete p f.block) [
    | yes e ↦ rw e (f.given, f.is_live, f.fits)
    | no ne ↦ rw (f.others p ne) (h.houses p (ground (arith, some_p)))
  ];
  once = λ p. elim (ℕ_discrete p f.block) [
    | yes e ↦
        let z : count p live ≡ 0 = rw e (count_new size live o f h) in
        let one : same p f.block ≤ 1 = ground arith in omega arith
    | no ne ↦ ground (arith, h.once p)
  ];
  balance = λ p. omega (
    arith,
    h.balance p,
    sum_by-append (is_constructed p) o.trace (constructs f.block args ∷ []),
    sum_by-append (is_destructed p) o.trace (constructs f.block args ∷ []),
  );
}

destroyed-IsHoused :
    (size p : ℕ) (live : List ℕ) (o : Objects) (m : Manager)
    → 0 < count p live
    → deallocate p size o.manager ≡ some m
    → Inv m
    → IsHoused size o live
    → IsHoused size (record { manager = m; trace = o.trace ++ destructs p ∷ [] }) (remove p live)
destroyed-IsHoused size p live o m here e inv h = record {
  inv = inv;
  not_null = elim (ℕ_discrete 0 p) [
    | yes z ↦ rw (sym z) (count-remove_self 0 live)
    | no ne ↦ omega (arith, count-remove_ne p 0 live ne, h.not_null)
  ];
  houses = λ q some_q. elim (ℕ_discrete q p) [
    | yes z ↦ absurd (ground (arith, z, count-remove_self p live))
    | no ne ↦
        rw (deallocate_others size p q o.manager m e ne)
          (h.houses q (omega (arith, count-remove_ne p q live ne)))
  ];
  once = λ q. elim (ℕ_discrete q p) [
    | yes z ↦ rw z (omega (arith, count-remove_self p live))
    | no ne ↦ omega (arith, count-remove_ne p q live ne, h.once q)
  ];
  balance = λ q.
      let built = sum_by-append (is_constructed q) o.trace (destructs p ∷ []) in
      let gone = sum_by-append (is_destructed q) o.trace (destructs p ∷ []) in
      elim (ℕ_discrete q p) [
        | yes z ↦
            let one : same q p ≡ 1 = ground arith in
            let none_left : count q (remove p live) ≡ 0 = rw z (count-remove_self p live) in
            let was : 0 < count q live = rw z here in
            omega (arith, built, gone, h.balance q, h.once q)
        | no ne ↦
            let other : same q p ≡ 0 = ground arith in
            omega (arith, built, gone, h.balance q, count-remove_ne p q live ne)
      ];
}

create-IsHoused :
    (size : ℕ) (args live : List ℕ) (o o' : Objects) (p : ℕ)
    → size ≤ 2 ^ 31
    → create size args o ≡ some (o', p)
    → IsHoused size o live
    → IsHoused size o' (p ∷ live)
create-IsHoused size args live o o' p small e h =
    let f = allocate-Fresh size o.manager small h.inv in
    let inv : Inv f.after = rw f.returns at (allocate-Keeps size o.manager h.inv) in
    let run = create_runs size args o f in
    let new_state : o'
        ≡ record { manager = f.after; trace = o.trace ++ constructs f.block args ∷ [] } =
      cc (e, run) in
    let address : p ≡ f.block = cc (e, run) in
    rw (new_state, address) (created-IsHoused size args live o f inv h)

destroy-IsHoused :
    (size p : ℕ) (live : List ℕ) (o o' : Objects)
    → size ≤ 2 ^ 31
    → 0 < count p live
    → destroy size p o ≡ some o'
    → IsHoused size o live
    → IsHoused size o' (remove p live)
destroy-IsHoused size p live o o' small here e h =
    let (m, given_back, run) = destroy_runs size p o small (positive p live here h.not_null) in
    let inv : Inv m = rw given_back at (deallocate-Keeps p size o.manager h.inv) in
    let new_state : o' ≡ record { manager = m; trace = o.trace ++ destructs p ∷ [] } =
      cc (e, run) in
    rw new_state (destroyed-IsHoused size p live o m here given_back inv h)
  where
    positive : (q : ℕ) (qs : List ℕ) → 0 < count q qs → count 0 qs ≡ 0 → 0 < q
    positive zero qs some_q none_0 = absurd (omega arith)
    positive (suc q) qs some_q none_0 = omega arith

-- In any history of `Create` and of `Destroy` of objects that live, from a manager of which the
-- allocator's invariant holds and for a size up to 2 ^ 31: no object lives at null, each one that
-- lives has a live block of at least its size, no two live at one address, and at each address the
-- constructor ran as often as the destructor, and once more where an object lives.
pub objects-Housed :
    (size : ℕ) (m : Manager) (o : Objects) (live : List ℕ)
    → size ≤ 2 ^ 31
    → Inv m
    → Run size m o live
    → IsHoused size o live
objects-Housed size m o live small v starts = record {
  inv = v;
  not_null = refl;
  houses = λ p h. absurd (omega arith);
  once = λ p. omega arith;
  balance = λ p. refl;
}
objects-Housed size m o live small v (creates {o = before} {live = live'} {p = p} args r e) =
    create-IsHoused size args live' before o p small e
      (objects-Housed size m before live' small v r)
objects-Housed size m o live small v (destroys {o = before} {live = live'} p r here e) =
    destroy-IsHoused size p live' before o small here e
      (objects-Housed size m before live' small v r)
