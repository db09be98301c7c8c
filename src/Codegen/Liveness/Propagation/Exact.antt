-- ===== src/Codegen/Liveness/Propagation/Exact.antt =====
-- src/codegen/pass/liveness.rs: the analysis returns, and what it finds is what is alive.
use ola_lang.Prelude.{never, ℕ, ◌≡◌, sym, ◌∙◌, ap, true, none, some, List, inl, inr}
use mathlib.Core.Path.{subst}
use mathlib.Core.List.{Memᴰ}
use ola_lang.Prelude.Map.{Map}
use ola_lang.Prelude.Outcome.{unwrap, ◌>>=◌, Returns, Returns-mono, Returns-bind}
use ola_lang.Prelude.Loops.{for_each, for_each-Through}
use ola_lang.Codegen.Instruction.{InstructionData}
use ola_lang.Codegen.Liveness.Propagation.{
  Reg, BlockData, Function, visit_inst, visit_at, visit_in, visit, analyze_function, set_def,
}
use ola_lang.Codegen.Liveness.Propagation.Growth.{in_of, out_of, Grows, Grows-refl, Grows-trans}
use ola_lang.Codegen.Liveness.Propagation.Alive.{used, before, before_phi}
use ola_lang.Codegen.Liveness.Propagation.Exposed.{no_phi-From, Live-iff}
use ola_lang.Codegen.Liveness.Propagation.Shape.{
  InstReads, Reads, WellFormed, Live, FindsLive, NoPhi, WritesFirst, PlainReads-InstReads,
  LeavesBackedUp,
}
use ola_lang.Codegen.Liveness.Propagation.Entry.{same_inst}
use ola_lang.Codegen.Liveness.Propagation.Definitions.{
  Defined, Has, blocks_of-WellFormed, insts_of-WellFormed, set_def-Defined,
}
use ola_lang.Codegen.Liveness.Propagation.Visit.{Kept, Shown, Shown-stays, Visited, inst_turn}

module _ (f : Function) (blocks : List ℕ) (insts preds : ℕ → List ℕ) (fuel : ℕ)
    (wf : WellFormed f blocks insts preds fuel) where
  abbrev BlockShown : ℕ → Map BlockData → Type 0
  BlockShown b m =
      (r : Reg) → Reads f blocks insts preds b r → Shown f blocks insts preds fuel wf b r m

  abbrev InstShown : ℕ → ℕ → Map BlockData → Type 0
  InstShown b i m =
      (inst : InstructionData) (r : Reg)
      → f.instructions i ≡ some inst
      → InstReads inst r
      → Shown f blocks insts preds fuel wf b r m

  -- what holds when `visit` is through
  abbrev Analysed : Map BlockData → Type 0
  Analysed m = Kept f blocks insts preds fuel wf m × ((b : ℕ) → Memᴰ b blocks → BlockShown b m)

  at_turn :
      (b i : ℕ) (m : Map BlockData)
      → Memᴰ b blocks
      → Memᴰ i (insts b)
      → Kept f blocks insts preds fuel wf m
      → Returns (Visited f blocks insts preds fuel wf (InstShown b i) m) (visit_at fuel f b i m)
  at_turn b i m n n' k =
      let (inst, e) = wf.insts_found b i n n' in
      subst (Returns (Visited f blocks insts preds fuel wf (InstShown b i) m))
        (sym (ap (λ o. unwrap o >>= λ inst. visit_inst fuel f inst b m) e))
        (Returns-mono _ (Visited f blocks insts preds fuel wf (InstShown b i) m)
          (visit_inst fuel f inst b m) (inst_turn f blocks insts preds fuel wf b i inst n n' e m k)
          (λ m' (k', g, all). (
            k',
            g,
            λ inst' r e' h.
                all r (subst (λ y. InstReads y r) (same_inst inst' inst (sym e' ∙ e)) h),
          )))

  in_turn :
      (b : ℕ) (m : Map BlockData)
      → Memᴰ b blocks
      → Kept f blocks insts preds fuel wf m
      → Returns (Visited f blocks insts preds fuel wf (BlockShown b) m) (visit_in fuel f b m)
  in_turn b m n k =
      subst (Returns (Visited f blocks insts preds fuel wf (BlockShown b) m))
        (sym (
          ap (λ o. o >>= λ is. for_each (visit_at fuel f b) is m)
            (insts_of-WellFormed f blocks insts preds fuel wf b n)))
        (Returns-mono _ (Visited f blocks insts preds fuel wf (BlockShown b) m) _
          (for_each-Through (visit_at fuel f b) (Kept f blocks insts preds fuel wf) Grows
            (InstShown b) Grows-refl Grows-trans
            (λ i s t g h inst r e q.
              Shown-stays f blocks insts preds fuel wf b r s t g (h inst r e q))
            (insts b) m (λ i s n' k'. at_turn b i s n n' k') k)
          (λ m' (k', g, all). (k', g, λ r (i, inst, _, n', e, h). all i n' inst r e h)))

  visit-Kept :
      (m : Map BlockData) → Kept f blocks insts preds fuel wf m → Returns Analysed (visit fuel f m)
  unfolding visit
  visit-Kept m k =
      subst (Returns Analysed)
        (sym (
          ap (λ o. o >>= λ bs. for_each (visit_in fuel f) bs m)
            (blocks_of-WellFormed f blocks insts preds fuel wf)))
        (Returns-mono _ Analysed _
          (for_each-Through (visit_in fuel f) (Kept f blocks insts preds fuel wf) Grows BlockShown
            Grows-refl Grows-trans
            (λ b s t g h r q. Shown-stays f blocks insts preds fuel wf b r s t g (h r q)) blocks m
            in_turn k)
          (λ m' (k', _, all). (k', all)))

  start :
      (m : Map BlockData)
      → Defined f blocks insts preds m
      → ((b : ℕ) → Memᴰ b blocks → Has f blocks insts preds fuel wf b m)
      → Kept f blocks insts preds fuel wf m
  start m h has = record {
    known = λ b n. (has b n).0;
    defs_sound = λ b r n e. h.defs b r e;
    defs_complete = λ b r n w. (has b n).1 r w;
    sound_in = λ b r e. elim (never (sym (h.ins b r) ∙ e)) [ ];
    sound_out = λ b r e. elim (never (sym (h.outs b r) ∙ e)) [ ];
    closed_in = λ b r e. elim (never (sym (h.ins b r) ∙ e)) [ ];
    closed_out = λ b r e. elim (never (sym (h.outs b r) ∙ e)) [ ];
  }

  analyze_function-Kept : Returns Analysed (analyze_function fuel f)
  unfolding analyze_function
  analyze_function-Kept =
      Returns-bind
        (λ m.
          Defined f blocks insts preds m
          × ((b : ℕ) → Memᴰ b blocks → Has f blocks insts preds fuel wf b m))
        Analysed (set_def fuel f (λ b. none)) (visit fuel f)
        (set_def-Defined f blocks insts preds fuel wf) (λ m (h, has). visit-Kept m (start m h has))

  module _ (no_phi : NoPhi f blocks insts preds) (m : Map BlockData)
      (k : Kept f blocks insts preds fuel wf m)
      (shown : (b : ℕ) → Memᴰ b blocks → BlockShown b m) where
    handed : (b p : ℕ) (r : Reg) → in_of m b r ≡ true → Memᴰ p (preds b) → out_of m p r ≡ true
    handed b p r e q = elim (k.closed_in b r e) [
      | inl (i, inst, _, _, e', (phi, _)) ↦ elim (never (sym (no_phi i inst e') ∙ phi)) [ ]
      | inr all ↦ all p q
    ]

    complete_in :
        (r : Reg) (b : ℕ) → Live f blocks insts preds r b → Memᴰ b blocks × (in_of m b r ≡ true)
    complete_in r b (used reads unwritten) =
        let (i, inst, n, n', e, h) = reads in
        (
          n,
          elim (shown b n r (i, inst, n, n', e, PlainReads-InstReads inst r h)) [
            | inl w ↦ elim (unwritten w) [ ]
            | inr e ↦ e
          ],
        )
    complete_in r p (before_phi phi q unwritten) =
        elim (no_phi-From f blocks insts preds fuel wf no_phi phi) [ ]
    complete_in r p (before {b} live q unwritten) =
        let (n, e) = complete_in r b live in
        (
          wf.preds_inside b p n q,
          elim (k.closed_out p r (handed b p r e q)) [
            | inl o ↦ elim o [ ]
            | inr (inl w) ↦ elim (unwritten w) [ ]
            | inr (inr e') ↦ e'
          ],
        )

  -- On a well-formed function without a phi, of which no block writes a register that it reads before,
  -- with more fuel than there are blocks, `analyze_function` returns, and the registers that it finds
  -- at the entry and at the end of each block are exactly those that are alive there: some way leads
  -- through blocks that do not write the register to one that reads it before it writes it.
  pub analyze_function-FindsLive :
      NoPhi f blocks insts preds
      → WritesFirst f blocks insts preds
      → Returns (FindsLive f blocks insts preds) (analyze_function fuel f)
  analyze_function-FindsLive no_phi writes_first =
      let live = Live-iff f blocks insts preds fuel wf no_phi writes_first in
      Returns-mono Analysed (FindsLive f blocks insts preds) (analyze_function fuel f)
        analyze_function-Kept
        (λ m (k, shown) b r. (
          (
            λ e. elim (k.sound_in b r e) [
              | inl l ↦ (live r b).0 l
              | inr (p, phi) ↦ elim (no_phi-From f blocks insts preds fuel wf no_phi phi) [ ]
            ],
            λ alive. (complete_in no_phi m k shown r b ((live r b).1 alive)).1,
          ),
          (
            λ e.
                let (c, wanted, q) = k.sound_out b r e in
                elim wanted [
                  | inl l ↦ (c, (live r c).0 l, q)
                  | inr phi ↦ elim (no_phi-From f blocks insts preds fuel wf no_phi phi) [ ]
                ],
            λ (c, alive, q).
                handed no_phi m k shown c b r
                  ((complete_in no_phi m k shown r c ((live r c).1 alive)).1) q,
          ),
        ))

  -- On a well-formed function, phis or none, with more fuel than there are blocks,
  -- `analyze_function` returns, and a register that it finds at the end of a block is a definition
  -- of the block or is found at its entry.
  pub analyze_function-LeavesBackedUp :
      Returns (LeavesBackedUp f blocks insts preds) (analyze_function fuel f)
  analyze_function-LeavesBackedUp =
      Returns-mono Analysed (LeavesBackedUp f blocks insts preds) (analyze_function fuel f)
        analyze_function-Kept
        (λ m (k, _) p r e. elim (k.closed_out p r e) [
          | inl o ↦ elim o [ ]
          | inr (inl w) ↦ let (_, _, n, _, _, _) = w in inl (k.defs_complete p r n w)
          | inr (inr h) ↦ inr h
        ])
