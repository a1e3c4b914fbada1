-- ===== src/Prelude/Alloc.antt =====
-- The allocator. A heap is the list of the outcomes of the next calls of `malloc` or `realloc`;
-- past its end every call succeeds. An action ends in `none` where the source returns NULL or -1
-- for want of memory.
use mathlib.Core.Path.{◌≡◌, refl, ap}
use mathlib.Core.Bool.{Bool, true, false}
use mathlib.Core.Option.{Option, none, some}
use mathlib.Core.List.{List, [], ◌∷◌}

abbrev pub Heap : Type 0
Heap = List Bool

abbrev pub Alloc {ℓ} : Type ℓ → Type ℓ
Alloc A = Heap → Option A × Heap

infixl 5 ◌>>=◌ ◌>>◌
abbrev pub ◌>>=◌ {ℓ κ} : {A : Type ℓ} {B : Type κ} → Alloc A → (A → Alloc B) → Alloc B
◌>>=◌ m f h = let (o, h') = m h in elim o [ none ↦ (none, h') | some a ↦ f a h' ]

abbrev pub ◌>>◌ {ℓ} : {B : Type ℓ} → Alloc (Unit {0}) → Alloc B → Alloc B
m >> k = m >>= λ _. k

abbrev pub pure {ℓ} : {A : Type ℓ} → A → Alloc A
pure a h = (some a, h)

abbrev pub malloc : Alloc (Unit {0})
malloc [] = (some tt, [])
malloc (true ∷ h) = (some tt, h)
malloc (false ∷ h) = (none, h)

-- The parts of a successful sequence.
pub >>=-eq-some {ℓ κ} :
    {A : Type ℓ} {B : Type κ} (m : Alloc A) (f : A → Alloc B) (h : Heap) {b : B}
    → ((m >>= f) h).0 ≡ some b
    → (a : A) × ((m h).0 ≡ some a) × ((f a (m h).1).0 ≡ some b)
>>=-eq-some {A} {B} m f h {b} e = split (m h).0 refl e
  where
    split :
        (o : Option A)
        → (m h).0 ≡ o
        → (let r : Option B × Heap = elim o [ none ↦ (none, (m h).1) | some a ↦ f a (m h).1 ] in
            r.0)
          ≡ some b
        → (a : A) × ((m h).0 ≡ some a) × ((f a (m h).1).0 ≡ some b)
    split none p q = cc
    split (some a) p q = (a, p, q)

pub >>=-assoc {ℓ κ μ} :
    {A : Type ℓ} {B : Type κ} {C : Type μ} (m : Alloc A) (f : A → Alloc B) (g : B → Alloc C)
    (h : Heap)
    → ((m >>= f) >>= g) h ≡ (m >>= λ a. f a >>= g) h
>>=-assoc {A} {B} {C} m f g h = split (m h).0
  where
    split :
        (o : Option A)
        → (let r : Option B × Heap = elim o [ none ↦ (none, (m h).1) | some a ↦ f a (m h).1 ] in
            let q : Option C × Heap = elim r.0 [ none ↦ (none, r.1) | some b ↦ g b r.1 ] in q)
          ≡ elim o [ none ↦ (none, (m h).1) | some a ↦ (f a >>= g) (m h).1 ]
    split none = refl
    split (some a) = refl

-- what follows a call that succeeds
pub >>=-eq {ℓ κ} :
    {A : Type ℓ} {B : Type κ} (m : Alloc A) (f : A → Alloc B) (h : Heap) {a : A} {h' : Heap}
    → m h ≡ (some a, h')
    → (m >>= f) h ≡ f a h'
>>=-eq {A} {B} m f h e =
    let next : Option A × Heap → Option B × Heap =
      λ r. elim r.0 [ none ↦ (none, r.1) | some a ↦ f a r.1 ] in
    ap next e
