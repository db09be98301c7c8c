-- ===== src/Codegen/Layout/Removal/Cases.antt =====
-- src/codegen/function/layout/mod.rs: `remove_inst`, with and without a neighbour on either side.
use ola_lang.Prelude.{ℕ, ◌≡◌, refl, false, none, some, ◌==◌, arith}
use ola_lang.Prelude.Map.{insert}
use ola_lang.Prelude.Outcome.{done}
use ola_lang.Codegen.Layout.{BlockNode, InstNode, Layout, remove_inst}
use ola_lang.Codegen.Layout.Segments.{node}
use ola_lang.Codegen.Layout.Edits.{Linked, at_neighbour}
use ola_lang.Codegen.Layout.Removal.{blank}

module _ (l : Layout) (b i : ℕ) (at : BlockNode) (found : l.basic_blocks b ≡ some at) where
  abbrev pub alone : Layout
  alone = record l {
    instructions = insert l.instructions i blank;
    basic_blocks =
        insert (insert l.basic_blocks b (record at { first_inst = none })) b
          (record at { first_inst = none; last_inst = none });
  }

  pub remove_alone :
      l.instructions i ≡ some (node b none none) → remove_inst i l ≡ done (some tt, alone)
  unfolding remove_inst
  remove_alone e = ground arith

  pub alone-Linked : Linked l alone b i at none none none none none none
  alone-Linked = record {
    links = record {
      before = λ j v q k. cc;
      behind = λ j v q k. cc;
      rest = λ j k k1 k2. ground arith;
    };
    node = ground arith;
    blocks = λ c k. ground arith;
    ends = (refl, refl);
  }

  pub alone-blank : alone.instructions i ≡ some blank
  alone-blank = ground arith

  module _ (z : ℕ) (w : InstNode) (behind : l.instructions z ≡ some w)
      (i_z : (i == z) ≡ false) where
    abbrev pub at_front : Layout
    at_front = record l {
      instructions = insert (insert l.instructions i blank) z (record w { prev = none });
      basic_blocks = insert l.basic_blocks b (record at { first_inst = (some z) });
    }

    pub remove_at_front :
        l.instructions i ≡ some (node b none (some z)) → remove_inst i l ≡ done (some tt, at_front)
    unfolding remove_inst
    remove_at_front e = ground arith

    pub at_front-Linked : Linked l at_front b i at none (some z) none (some z) (some z) at.last_inst
    at_front-Linked = record {
      links = record {
        before = λ j v q k. cc;
        behind =
            at_neighbour l.instructions at_front.instructions (λ v. record v { prev = none }) z w
              behind (ground arith);
        rest = λ j k k1 k2. ground arith;
      };
      node = ground arith;
      blocks = λ c k. ground arith;
      ends = (refl, refl);
    }

    pub at_front-blank : at_front.instructions i ≡ some blank
    at_front-blank = ground arith

  module _ (q : ℕ) (v : InstNode) (before : l.instructions q ≡ some v)
      (i_q : (i == q) ≡ false) where
    abbrev pub at_back : Layout
    at_back = record l {
      instructions = insert (insert l.instructions i blank) q (record v { next = none });
      basic_blocks = insert l.basic_blocks b (record at { last_inst = (some q) });
    }

    pub remove_at_back :
        l.instructions i ≡ some (node b (some q) none) → remove_inst i l ≡ done (some tt, at_back)
    unfolding remove_inst
    remove_at_back e = ground arith

    pub at_back-Linked : Linked l at_back b i at (some q) none (some q) none at.first_inst (some q)
    at_back-Linked = record {
      links = record {
        before =
            at_neighbour l.instructions at_back.instructions (λ v. record v { next = none }) q v
              before (ground arith);
        behind = λ j v q k. cc;
        rest = λ j k k1 k2. ground arith;
      };
      node = ground arith;
      blocks = λ c k. ground arith;
      ends = (refl, refl);
    }

    pub at_back-blank : at_back.instructions i ≡ some blank
    at_back-blank = ground arith

  module _ (q : ℕ) (v : InstNode) (before : l.instructions q ≡ some v) (i_q : (i == q) ≡ false)
      (z : ℕ) (w : InstNode) (behind : l.instructions z ≡ some w) (i_z : (i == z) ≡ false)
      (q_z : (q == z) ≡ false) where
    abbrev pub inside : Layout
    inside = record l {
      instructions =
          insert (insert (insert l.instructions i blank) q (record v { next = (some z) })) z
            (record w { prev = (some q) });
      basic_blocks = l.basic_blocks;
    }

    pub remove_between :
        l.instructions i ≡ some (node b (some q) (some z))
        → remove_inst i l ≡ done (some tt, inside)
    unfolding remove_inst
    remove_between e = ground arith

    pub inside-Linked :
        Linked l inside b i at (some q) (some z) (some q) (some z) at.first_inst at.last_inst
    inside-Linked = record {
      links = record {
        before =
            at_neighbour l.instructions inside.instructions (λ v. record v { next = (some z) }) q v
              before (ground arith);
        behind =
            at_neighbour l.instructions inside.instructions (λ v. record v { prev = (some q) }) z w
              behind (ground arith);
        rest = λ j k k1 k2. ground arith;
      };
      node = ground arith;
      blocks = λ c k. ground arith;
      ends = (refl, refl);
    }

    pub inside-blank : inside.instructions i ≡ some blank
    inside-blank = ground arith
