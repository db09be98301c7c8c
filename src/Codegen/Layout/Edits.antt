-- ===== src/Codegen/Layout/Edits.antt =====
-- src/codegen/function/layout/mod.rs: what an operation on the instructions of one block leaves.
use ola_lang.Prelude.{
  ℕ, ◌≡◌, refl, true, false, Option, none, some, List, [], ◌∷◌, ◌==◌, arith, Bool-cases, inl, inr,
  sym, ap, ◌∙◌,
}
use ola_lang.Prelude.Map.{Map}
use ola_lang.Codegen.Layout.{BlockNode, InstNode, Layout, is_some_of}
use ola_lang.Codegen.Layout.Segments.{
  has, Distinct, head_or, last_or, node, Seg, Seg-frame, Seg-has, Holds,
}

-- The instruction `i` comes in or goes between its neighbours `p` and `n`: `p` points on to `nx`,
-- `n` back to `pv`, and all other instructions keep their links.
pub record Relinked (m m' : Map InstNode) (i : ℕ) (p n pv nx : Option ℕ) : Type 0 where
  pub before :
      (j : ℕ) (v : InstNode) → p ≡ some j → m j ≡ some v → m' j ≡ some (record v { next = nx })
  pub behind :
      (j : ℕ) (v : InstNode) → n ≡ some j → m j ≡ some v → m' j ≡ some (record v { prev = pv })
  pub rest :
      (j : ℕ) → (i == j) ≡ false → is_some_of p j ≡ false → is_some_of n j ≡ false → m' j ≡ m j

pub ne_sym : (j k : ℕ) → (j == k) ≡ false → (k == j) ≡ false
ne_sym j k h = elim (Bool-cases (k == j)) [
  | inl e ↦ let same : k ≡ j = ground arith in let t = rw same at h in cc
  | inr e ↦ e
]

pub ne_of_has : (j z : ℕ) (zs : List ℕ) → has z zs ≡ false → has j zs ≡ true → (z == j) ≡ false
ne_of_has j z zs out k = elim (Bool-cases (z == j)) [
  | inl e ↦ let same : z ≡ j = ground arith in let t = rw same at out in cc
  | inr e ↦ e
]

pub not_last :
    (p : Option ℕ) (ys : List ℕ) (j : ℕ)
    → has j ys ≡ false
    → is_some_of p j ≡ false
    → is_some_of (last_or p ys) j ≡ false
not_last p [] j h k = k
not_last p (y ∷ ys) j h k = not_last (some y) ys j (ground arith) (ne_sym j y (ground arith))

module _ (m m' : Map InstNode) (b i : ℕ) (p n pv nx : Option ℕ)
    (r : Relinked m m' i p n pv nx) where
  pub Relinked-back :
      (pv' : Option ℕ) (zs : List ℕ)
      → Seg m b pv' zs none
      → Distinct zs
      → n ≡ head_or zs none
      → has i zs ≡ false
      → ((j : ℕ) → has j zs ≡ true → is_some_of p j ≡ false)
      → Seg m' b pv zs none
  Relinked-back pv' [] h d e out apart = tt
  Relinked-back pv' (z ∷ zs) (at, h) (new, d) e out apart = (
    r.behind z (node b pv' (head_or zs none)) e at,
    Seg-frame m b m' (some z) zs none h λ j k.
        r.rest j (ne_of_has j i zs (ground arith) k) (apart j (ground arith))
          (rw e (ne_of_has j z zs new k)),
  )

  pub Relinked-front :
      (q nx' : Option ℕ) (ys : List ℕ)
      → Seg m b q ys nx'
      → Distinct ys
      → p ≡ last_or q ys
      → has i ys ≡ false
      → ((j : ℕ) → has j ys ≡ true → is_some_of n j ≡ false)
      → Seg m' b q ys nx
  Relinked-front q nx' [] h d e out apart = tt
  Relinked-front q nx' (y ∷ []) (at, h) d e out apart = (r.before y (node b q nx') e at, tt)
  Relinked-front q nx' (y ∷ z ∷ ys) (at, h) (new, d) e out apart = (
    r.rest y (ne_sym y i (ground arith))
          (rw e (not_last (some z) ys y (ground arith) (ne_sym y z (ground arith))))
          (apart y (ground arith))
        ∙ at,
    Relinked-front (some y) nx' (z ∷ ys) h d e (ground arith) λ j k. apart j (ground arith),
  )

abbrev pub block_links : Option BlockNode → Option (Option ℕ × Option ℕ)
block_links none = none
block_links (some v) = some (v.prev, v.next)

-- The layout `l'` differs from `l` in the links around `i` in the block `b`, whose node was `at` and
-- now has the first instruction `fi` and the last one `la`.
pub record Linked (l l' : Layout) (b i : ℕ) (at : BlockNode) (p n pv nx fi la : Option ℕ)
    : Type 0 where
  pub links : Relinked l.instructions l'.instructions i p n pv nx
  pub node : l'.basic_blocks b ≡ some (record at { first_inst = fi; last_inst = la })
  pub blocks : (c : ℕ) → (c == b) ≡ false → l'.basic_blocks c ≡ l.basic_blocks c
  pub ends : (l'.first_block ≡ l.first_block) × (l'.last_block ≡ l.last_block)

-- The layout `l'` is `l`, but for the block `b`, which holds `xs`: the other blocks hold what they
-- held, and the order of the blocks is the same.
pub record Edited (l : Layout) (b : ℕ) (xs : List ℕ) (l' : Layout) : Type 0 where
  pub here : Holds l' b xs
  pub others : (c : ℕ) (ys : List ℕ) → (c == b) ≡ false → Holds l c ys → Holds l' c ys
  pub order : (c : ℕ) → block_links (l'.basic_blocks c) ≡ block_links (l.basic_blocks c)
  pub ends : (l'.first_block ≡ l.first_block) × (l'.last_block ≡ l.last_block)

-- An instruction in no other block than `b`
abbrev pub OnlyIn : Map InstNode → ℕ → Option ℕ → Type 0
OnlyIn m b none = Unit
OnlyIn m b (some j) = (v : InstNode) → m j ≡ some v → v.block ≡ some b

module _ (l l' : Layout) (b i : ℕ) (at : BlockNode) (p n pv nx fi la : Option ℕ)
    (k : Linked l l' b i at p n pv nx fi la) (found : l.basic_blocks b ≡ some at)
    (mine : OnlyIn l.instructions b (some i)) (left : OnlyIn l.instructions b p)
    (right : OnlyIn l.instructions b n) where
  elsewhere :
      (c j : ℕ) (o : Option ℕ) (ys : List ℕ)
      → (c == b) ≡ false
      → Seg l.instructions c none ys none
      → has j ys ≡ true
      → OnlyIn l.instructions b o
      → is_some_of o j ≡ false
  elsewhere c j none ys ne h e only = refl
  elsewhere c j (some x) ys ne h e only = elim (Bool-cases (x == j)) [
    | inl q ↦
        let same : x ≡ j = ground arith in
        let (v, at, in_c) = Seg-has l.instructions c none ys none j h e in
        let in_b = only v (rw same at) in
        let same_block : some c ≡ some b = sym in_c ∙ in_b in ground arith
    | inr q ↦ q
  ]

  others-Holds : (c : ℕ) (ys : List ℕ) → (c == b) ≡ false → Holds l c ys → Holds l' c ys
  others-Holds c ys ne h = record {
    at = h.at;
    found = k.blocks c ne ∙ h.found;
    first = h.first;
    last = h.last;
    seg = Seg-frame l.instructions c l'.instructions none ys none h.seg λ j e.
        k.links.rest j (elsewhere c j (some i) ys ne h.seg e mine)
          (elsewhere c j p ys ne h.seg e left) (elsewhere c j n ys ne h.seg e right);
    distinct = h.distinct;
  }

  order-same : (c : ℕ) → block_links (l'.basic_blocks c) ≡ block_links (l.basic_blocks c)
  order-same c = elim (Bool-cases (c == b)) [
    | inl e ↦ let same : c ≡ b = ground arith in rw (same, k.node, found) refl
    | inr e ↦ rw (k.blocks c e) refl
  ]

  pub Linked-Edited :
      (xs : List ℕ)
      → Seg l'.instructions b none xs none
      → Distinct xs
      → fi ≡ head_or xs none
      → la ≡ last_or none xs
      → Edited l b xs l'
  Linked-Edited xs s d f t = record {
    here = record {
      at = record at { first_inst = fi; last_inst = la };
      found = k.node;
      first = f;
      last = t;
      seg = s;
      distinct = d;
    };
    others = others-Holds;
    order = order-same;
    ends = k.ends;
  }

-- A change at one key, read at a key that equals it
pub at_neighbour :
    (m m' : Map InstNode) (f : InstNode → InstNode) (x : ℕ) (w : InstNode)
    → m x ≡ some w
    → m' x ≡ some (f w)
    → (j : ℕ) (v : InstNode) → some x ≡ some j
    → m j ≡ some v
    → m' j ≡ some (f v)
at_neighbour m m' f x w e e' j v q k =
    let same : j ≡ x = ground arith in
    let w_v : some w ≡ some v = sym e ∙ ap m (sym same) ∙ k in
    let w_eq : w ≡ v = ground arith in rw (same, e', w_eq) refl

pub ne_of_fresh :
    (m : Map InstNode) (i x : ℕ) (v : InstNode) → m i ≡ none → m x ≡ some v → (i == x) ≡ false
ne_of_fresh m i x v fresh e = elim (Bool-cases (i == x)) [
  | inl q ↦ let same : i ≡ x = ground arith in let t = rw same at fresh in cc
  | inr q ↦ q
]
