-- ===== src/Codegen/Layout.antt =====
-- src/codegen/function/layout/mod.rs: the order of the blocks of a function and of the instructions
-- of a block, as doubly linked lists over two hash maps. Ids of the arenas are numbers. An index
-- into a map and `unwrap` panic on a missing key.
pub mod Edits
pub mod Segments
pub mod Insertion
pub mod Removal
pub mod Iteration
pub mod Order
use ola_lang.Prelude.{
  ℕ, zero, suc, Bool, true, false, Option, none, some, List, [], ◌∷◌, ◌==◌, if◌then◌else◌,
}
use ola_lang.Prelude.Map.{Map, insert}
use ola_lang.Prelude.Outcome.{Outcome, done, panic, unwrap, ◌>>=◌}

pub record BlockNode : Type 0 where
  pub prev : Option ℕ
  pub next : Option ℕ
  pub first_inst : Option ℕ
  pub last_inst : Option ℕ

pub record InstNode : Type 0 where
  pub block : Option ℕ
  pub prev : Option ℕ
  pub next : Option ℕ

pub record Layout : Type 0 where
  pub basic_blocks : Map BlockNode
  pub instructions : Map InstNode
  pub first_block : Option ℕ
  pub last_block : Option ℕ

unfoldable pub new : Layout
new = record {
  basic_blocks = λ b. none;
  instructions = λ i. none;
  first_block = none;
  last_block = none;
}

-- `entry(k).or_insert(v)`
abbrev pub or_insert {ℓ} : {V : Type ℓ} → Map V → ℕ → V → Map V
or_insert m k v = elim (m k) [ none ↦ insert m k v | some _ ↦ m ]

-- `get_mut(&k).unwrap()`, and an update of the value
abbrev pub modify {ℓ} : {V : Type ℓ} → Map V → ℕ → (V → V) → Outcome (Map V)
modify m k f = do v ← unwrap (m k); done (insert m k (f v))

abbrev pub modify_block : ℕ → (BlockNode → BlockNode) → Layout → Outcome Layout
modify_block b f l = do m ← modify l.basic_blocks b f; done (record l { basic_blocks = m })

abbrev pub modify_inst : ℕ → (InstNode → InstNode) → Layout → Outcome Layout
modify_inst i f l = do m ← modify l.instructions i f; done (record l { instructions = m })

-- `instructions.entry(inst).or_insert(node).block = Some(block)`
abbrev pub enter_inst : ℕ → ℕ → (prev next : Option ℕ) → Layout → Outcome Layout
enter_inst i b p n l =
    modify_inst i (λ node. record node { block = some b })
      (record l {
        instructions = or_insert l.instructions i (record { block = some b; prev = p; next = n });
      })

-- `if let Some(x) = o { … }`
abbrev pub when_some : Option ℕ → (ℕ → Layout → Outcome Layout) → Layout → Outcome Layout
when_some none f l = done l
when_some (some x) f l = f x l

abbrev pub set_prev : Option ℕ → ℕ → Layout → Outcome Layout
set_prev p i = modify_inst i (λ node. record node { prev = p })

abbrev pub set_next : Option ℕ → ℕ → Layout → Outcome Layout
set_next n i = modify_inst i (λ node. record node { next = n })

abbrev pub set_first : Option ℕ → ℕ → Layout → Outcome Layout
set_first i b = modify_block b (λ node. record node { first_inst = i })

abbrev pub set_last : Option ℕ → ℕ → Layout → Outcome Layout
set_last i b = modify_block b (λ node. record node { last_inst = i })

abbrev pub block_ref : Layout → ℕ → Outcome BlockNode
block_ref l b = unwrap (l.basic_blocks b)

abbrev pub inst_ref : Layout → ℕ → Outcome InstNode
inst_ref l i = unwrap (l.instructions i)

abbrev pub is_none : Option ℕ → Bool
is_none none = true
is_none (some _) = false

abbrev pub is_some_of : Option ℕ → ℕ → Bool
is_some_of none x = false
is_some_of (some y) x = y == x

next_block_of : ℕ → Layout → Outcome (Option ℕ)
next_block_of b l = do node ← block_ref l b; done node.next

last_inst_of : ℕ → Layout → Outcome (Option ℕ)
last_inst_of b l = do node ← block_ref l b; done node.last_inst

unfoldable pub prev_inst_of : ℕ → Layout → Outcome (Option ℕ)
prev_inst_of i l = do node ← inst_ref l i; done node.prev

unfoldable pub next_inst_of : ℕ → Layout → Outcome (Option ℕ)
next_inst_of i l = do node ← inst_ref l i; done node.next

unfoldable pub append_block : ℕ → Layout → Outcome Layout
append_block b l = do
  let entered =
      or_insert l.basic_blocks b
        (record { prev = l.last_block; next = none; first_inst = none; last_inst = none })
  let l₁ = record l { basic_blocks = entered }
  l₂ ←
      when_some l.last_block
        (λ last l. do
          l ← modify_block last (λ node. record node { next = some b }) l
          modify_block b (λ node. record node { prev = some last }) l)
        l₁
  done (record l₂ {
    last_block = some b;
    first_block = if is_none l₂.first_block then some b else l₂.first_block;
  })

unfoldable pub insert_inst_at_start : ℕ → ℕ → Layout → Outcome Layout
insert_inst_at_start i b l₀ = do
  l₁ ← enter_inst i b none none l₀
  node ← block_ref l₁ b
  l₂ ←
      when_some node.first_inst
        (λ first l. do l ← set_prev (some i) first l; set_next (some first) i l) l₁
  l₃ ← set_first (some i) b l₂
  node' ← block_ref l₃ b
  if is_none node'.last_inst then set_last (some i) b l₃ else done l₃

unfoldable pub insert_inst_before : ℕ → ℕ → ℕ → Layout → Outcome Layout
insert_inst_before before i b l₀ = do
  at ← inst_ref l₀ before
  l₁ ← enter_inst i b at.prev (some before) l₀
  at' ← inst_ref l₁ before
  l₂ ← when_some at'.prev (λ p l. set_next (some i) p l) l₁
  l₃ ← set_prev (some i) before l₂
  node ← block_ref l₃ b
  if is_some_of node.first_inst before then set_first (some i) b l₃ else done l₃

unfoldable pub insert_inst_after : ℕ → ℕ → ℕ → Layout → Outcome Layout
insert_inst_after after i b l₀ = do
  at ← inst_ref l₀ after
  l₁ ← enter_inst i b (some after) at.next l₀
  at' ← inst_ref l₁ after
  l₂ ← when_some at'.next (λ n l. set_prev (some i) n l) l₁
  set_next (some i) after l₂

unfoldable pub append_inst : ℕ → ℕ → Layout → Outcome Layout
append_inst i b l₀ = do
  node₀ ← block_ref l₀ b
  l₁ ← enter_inst i b node₀.last_inst none l₀
  node ← block_ref l₁ b
  l₂ ←
      when_some node.last_inst (λ last l. do l ← set_next (some i) last l; set_prev (some last) i l)
        l₁
  l₃ ← set_last (some i) b l₂
  node' ← block_ref l₃ b
  if is_none node'.first_inst then set_first (some i) b l₃ else done l₃

-- The `?` of `remove_inst`: `None` where a key is missing; the layout is as far as it got.
abbrev pub try_modify {ℓ} : {V : Type ℓ} → Map V → ℕ → (V → V) → Option (Map V)
try_modify m k f = elim (m k) [ none ↦ none | some v ↦ some (insert m k (f v)) ]

abbrev pub with_insts : Layout → Option (Map InstNode) → Option (Unit {0}) × Layout
with_insts l none = (none, l)
with_insts l (some m) = (some tt, record l { instructions = m })

abbrev pub with_blocks : Layout → Option (Map BlockNode) → Option (Unit {0}) × Layout
with_blocks l none = (none, l)
with_blocks l (some m) = (some tt, record l { basic_blocks = m })

abbrev pub join_prev : ℕ → (prev next : Option ℕ) → Layout → Option (Unit {0}) × Layout
join_prev b (some p) n l =
    with_insts l (try_modify l.instructions p (λ node. record node { next = n }))
join_prev b none n l =
    with_blocks l (try_modify l.basic_blocks b (λ node. record node { first_inst = n }))

abbrev pub join_next : ℕ → (prev next : Option ℕ) → Layout → Option (Unit {0}) × Layout
join_next b p (some n) l =
    with_insts l (try_modify l.instructions n (λ node. record node { prev = p }))
join_next b p none l =
    with_blocks l (try_modify l.basic_blocks b (λ node. record node { last_inst = p }))

abbrev pub then_join :
    ℕ → (prev next : Option ℕ) → Option (Unit {0}) × Layout → Option (Unit {0}) × Layout
then_join b p n (none, l) = (none, l)
then_join b p n (some _, l) = join_next b p n l

abbrev pub unlinked : ℕ → Layout → Layout
unlinked i l = record l {
  instructions = insert l.instructions i (record { block = none; prev = none; next = none });
}

abbrev pub remove_from : ℕ → InstNode → Option ℕ → Layout → Option (Unit {0}) × Layout
remove_from i node none l = (none, l)
remove_from i node (some b) l =
    then_join b node.prev node.next (join_prev b node.prev node.next (unlinked i l))

unfoldable pub remove_inst : ℕ → Layout → Outcome (Option (Unit {0}) × Layout)
remove_inst i l = do node ← inst_ref l i; done (remove_from i node node.block l)

-- `BasicBlockIter`: the blocks from `cur` on, at most `fuel` of them; `none` if there are more.
unfoldable pub blocks_from : ℕ → Layout → Option ℕ → Outcome (Option (List ℕ))
blocks_from fuel l none = done (some [])
blocks_from zero l (some cur) = done none
blocks_from (suc fuel) l (some cur) = do
  node ← block_ref l cur
  rest ← blocks_from fuel l node.next
  done (elim rest [ none ↦ none | some r ↦ some (cur ∷ r) ])

-- `InstructionIter`: it stops behind the block's last instruction.
unfoldable pub insts_from : ℕ → Layout → ℕ → Option ℕ → Outcome (Option (List ℕ))
insts_from fuel l b none = done (some [])
insts_from zero l b (some cur) = done none
insts_from (suc fuel) l b (some cur) = do
  node ← block_ref l b
  let later = (do at ← inst_ref l cur; insts_from fuel l b at.next)
  rest ← if is_some_of node.last_inst cur then done (some []) else later
  done (elim rest [ none ↦ none | some r ↦ some (cur ∷ r) ])

unfoldable pub block_iter : ℕ → Layout → Outcome (Option (List ℕ))
unfolding blocks_from
block_iter fuel l = blocks_from fuel l l.first_block

unfoldable pub inst_iter : ℕ → Layout → ℕ → Outcome (Option (List ℕ))
unfolding insts_from
inst_iter fuel l b = do node ← block_ref l b; insts_from fuel l b node.first_inst
