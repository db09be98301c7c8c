-- ===== src/Codegen/Layout/Segments.antt =====
-- src/codegen/function/layout/mod.rs: what a well-formed list of instructions is in the maps, and
-- how it is taken apart and changed.
use ola_lang.Prelude.{
  ℕ, ◌≡◌, refl, Bool, true, false, ◌||◌, Option, none, some, List, [], ◌∷◌, ◌++◌, ◌==◌, arith,
  Bool-cases, inl, inr, ◌⊎◌, ap, ◌∙◌,
}
use ola_lang.Prelude.Map.{Map}
use ola_lang.Codegen.Layout.{BlockNode, InstNode, Layout}

abbrev pub has : ℕ → List ℕ → Bool
has i [] = false
has i (x ∷ xs) = (i == x) || has i xs

abbrev pub Distinct : List ℕ → Type 0
Distinct [] = Unit
Distinct (x ∷ xs) = (has x xs ≡ false) × Distinct xs

-- the first of the list, and the last, or else what is given
abbrev pub head_or : List ℕ → Option ℕ → Option ℕ
head_or [] n = n
head_or (x ∷ xs) n = some x

abbrev pub last_or : Option ℕ → List ℕ → Option ℕ
last_or p [] = p
last_or p (x ∷ xs) = last_or (some x) xs

abbrev pub node : ℕ → (prev next : Option ℕ) → InstNode
node b p n = record { block = some b; prev = p; next = n }

-- The instructions `xs` of the block `b` are linked both ways; `p` stands before them and `n` behind.
abbrev pub Seg : Map InstNode → ℕ → Option ℕ → List ℕ → Option ℕ → Type 0
Seg m b p [] n = Unit
Seg m b p (x ∷ xs) n = (m x ≡ some (node b p (head_or xs n))) × Seg m b (some x) xs n

module _ (m : Map InstNode) (b : ℕ) where
  pub Seg-append :
      (p : Option ℕ) (xs ys : List ℕ) (n : Option ℕ)
      → Seg m b p xs (head_or ys n)
      → Seg m b (last_or p xs) ys n
      → Seg m b p (xs ++ ys) n
  Seg-append p [] ys n h k = k
  Seg-append p (x ∷ []) ys n (e, _) k = (e, k)
  Seg-append p (x ∷ y ∷ xs) ys n (e, h) k = (e, Seg-append (some x) (y ∷ xs) ys n h k)

  pub Seg-left :
      (p : Option ℕ) (xs ys : List ℕ) (n : Option ℕ)
      → Seg m b p (xs ++ ys) n
      → Seg m b p xs (head_or ys n)
  Seg-left p [] ys n h = tt
  Seg-left p (x ∷ []) ys n (e, h) = (e, tt)
  Seg-left p (x ∷ y ∷ xs) ys n (e, h) = (e, Seg-left (some x) (y ∷ xs) ys n h)

  pub Seg-right :
      (p : Option ℕ) (xs ys : List ℕ) (n : Option ℕ)
      → Seg m b p (xs ++ ys) n
      → Seg m b (last_or p xs) ys n
  Seg-right p [] ys n h = h
  Seg-right p (x ∷ xs) ys n (e, h) = Seg-right (some x) xs ys n h

  -- A list is untouched by a change elsewhere.
  pub Seg-frame :
      (m' : Map InstNode) (p : Option ℕ) (xs : List ℕ) (n : Option ℕ)
      → Seg m b p xs n
      → ((i : ℕ) → has i xs ≡ true → m' i ≡ m i)
      → Seg m' b p xs n
  Seg-frame m' p [] n h same = tt
  Seg-frame m' p (x ∷ xs) n (e, h) same =
      (same x (ground arith) ∙ e, Seg-frame m' (some x) xs n h λ i k. same i (ground arith))

-- The last link of a list changes, and nothing else of it.
pub Seg-relink :
    (m m' : Map InstNode) (b : ℕ) (p : Option ℕ) (xs : List ℕ) (x : ℕ) (n n' : Option ℕ)
    → Seg m b p (xs ++ x ∷ []) n
    → ((i : ℕ) → has i xs ≡ true → m' i ≡ m i)
    → m' x ≡ some (node b (last_or p xs) n')
    → Seg m' b p (xs ++ x ∷ []) n'
Seg-relink m m' b p xs x n n' h same e =
    Seg-append m' b p xs (x ∷ []) n'
      (Seg-frame m b m' p xs (some x) (Seg-left m b p xs (x ∷ []) n h) same) (e, tt)

pub snoc-cases : (xs : List ℕ) → (xs ≡ []) ⊎ ((ys : List ℕ) × (y : ℕ) × (xs ≡ ys ++ y ∷ []))
snoc-cases [] = inl refl
snoc-cases (x ∷ xs) = elim (snoc-cases xs) [
  | inl e ↦ inr ([], x, ap (λ t. x ∷ t) e)
  | inr (ys, y, e) ↦ inr (x ∷ ys, y, ap (λ t. x ∷ t) e)
]

pub last_or-snoc : (p : Option ℕ) (xs : List ℕ) (x : ℕ) → last_or p (xs ++ x ∷ []) ≡ some x
last_or-snoc p [] x = refl
last_or-snoc p (y ∷ xs) x = last_or-snoc (some y) xs x

pub last_or-append :
    (p : Option ℕ) (xs ys : List ℕ) → last_or p (xs ++ ys) ≡ last_or (last_or p xs) ys
last_or-append p [] ys = refl
last_or-append p (x ∷ xs) ys = last_or-append (some x) xs ys

pub has-append : (i : ℕ) (xs ys : List ℕ) → has i (xs ++ ys) ≡ (has i xs || has i ys)
has-append i [] ys = refl
has-append i (x ∷ xs) ys = ground (arith, has-append i xs ys)

-- No element of the front stands in the back.
pub Distinct-apart :
    (xs ys : List ℕ) (i : ℕ) → Distinct (xs ++ ys) → has i xs ≡ true → has i ys ≡ false
Distinct-apart [] ys i d h = cc
Distinct-apart (x ∷ xs) ys i (out, d) h =
    ground (arith, has-append x xs ys, Distinct-apart xs ys i d)

pub Distinct-left : (xs ys : List ℕ) → Distinct (xs ++ ys) → Distinct xs
Distinct-left [] ys d = tt
Distinct-left (x ∷ xs) ys (out, d) = (ground (arith, has-append x xs ys), Distinct-left xs ys d)

pub Distinct-right : (xs ys : List ℕ) → Distinct (xs ++ ys) → Distinct ys
Distinct-right [] ys d = d
Distinct-right (x ∷ xs) ys (out, d) = Distinct-right xs ys d

pub Distinct-insert :
    (xs ys : List ℕ) (i : ℕ)
    → Distinct (xs ++ ys)
    → has i (xs ++ ys) ≡ false
    → Distinct (xs ++ i ∷ ys)
Distinct-insert [] ys i d out = (out, d)
Distinct-insert (x ∷ xs) ys i (h, d) out = (
  ground (arith, has-append x xs ys, has-append x xs (i ∷ ys)),
  Distinct-insert xs ys i d (ground arith),
)

pub Distinct-remove : (xs ys : List ℕ) (i : ℕ) → Distinct (xs ++ i ∷ ys) → Distinct (xs ++ ys)
Distinct-remove [] ys i (h, d) = d
Distinct-remove (x ∷ xs) ys i (h, d) =
    (ground (arith, has-append x xs ys, has-append x xs (i ∷ ys)), Distinct-remove xs ys i d)

-- What has no node is in no list, and what is in a list of a block says so.
pub Seg-has :
    (m : Map InstNode) (b : ℕ) (p : Option ℕ) (xs : List ℕ) (n : Option ℕ) (i : ℕ)
    → Seg m b p xs n
    → has i xs ≡ true
    → (v : InstNode) × (m i ≡ some v) × (v.block ≡ some b)
Seg-has m b p [] n i h k = cc
Seg-has m b p (x ∷ xs) n i (e, h) k = elim (Bool-cases (i == x)) [
  | inl q ↦ (node b p (head_or xs n), ground arith, refl)
  | inr q ↦ Seg-has m b (some x) xs n i h (ground arith)
]

-- The block `b` holds the instructions `xs`, in this order.
pub record Holds (l : Layout) (b : ℕ) (xs : List ℕ) : Type 0 where
  pub at : BlockNode
  pub found : l.basic_blocks b ≡ some at
  pub first : at.first_inst ≡ head_or xs none
  pub last : at.last_inst ≡ last_or none xs
  pub seg : Seg l.instructions b none xs none
  pub distinct : Distinct xs

pub not-has_of_fresh :
    (l : Layout) (b : ℕ) (xs : List ℕ) (i : ℕ)
    → Holds l b xs
    → l.instructions i ≡ none
    → has i xs ≡ false
not-has_of_fresh l b xs i h fresh = elim (Bool-cases (has i xs)) [
  | inl e ↦ let (v, at, _) = Seg-has l.instructions b none xs none i h.seg e in cc
  | inr e ↦ e
]

-- The first of a list that has an element does not depend on what follows, and is in the list.
pub head_or-snoc :
    (ys : List ℕ) (q : ℕ) (ws : List ℕ)
    → head_or ((ys ++ q ∷ []) ++ ws) none ≡ head_or (ys ++ q ∷ []) none
head_or-snoc [] q ws = refl
head_or-snoc (y ∷ ys) q ws = refl

pub snoc-head :
    (ys : List ℕ) (q : ℕ)
    → (f : ℕ) × (head_or (ys ++ q ∷ []) none ≡ some f) × (has f (ys ++ q ∷ []) ≡ true)
snoc-head [] q = (q, refl, ground arith)
snoc-head (y ∷ ys) q = (y, refl, ground arith)

pub has-snoc : (ys : List ℕ) (q : ℕ) → has q (ys ++ q ∷ []) ≡ true
has-snoc [] q = ground arith
has-snoc (y ∷ ys) q = ground (arith, has-snoc ys q)

pub has-head : (j x : ℕ) (xs : List ℕ) → has j (x ∷ xs) ≡ false → (j == x) ≡ false
has-head j x xs h = ground arith

pub has-tail : (j x : ℕ) (xs : List ℕ) → has j (x ∷ xs) ≡ false → has j xs ≡ false
has-tail j x xs h = ground arith

pub Distinct-snoc : (xs : List ℕ) (b : ℕ) → Distinct xs → has b xs ≡ false → Distinct (xs ++ b ∷ [])
Distinct-snoc [] b d out = (refl, tt)
Distinct-snoc (x ∷ xs) b (h, d) out = (
  elim (Bool-cases (b == x)) [
    | inl e ↦ ground arith
    | inr e ↦ ground (arith, has-append x xs (b ∷ []), ne_flip b x e)
  ],
  Distinct-snoc xs b d (ground arith),
)
  where
    ne_flip : (j k : ℕ) → (j == k) ≡ false → (k == j) ≡ false
    ne_flip j k h = elim (Bool-cases (k == j)) [
      | inl e ↦ let same : k ≡ j = ground arith in let t = rw same at h in cc
      | inr e ↦ e
    ]
