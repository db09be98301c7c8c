-- ===== src/Sema/Tests/TypesTests.antt =====
-- src/sema/types.rs on an array of arrays of a struct.
use ola_lang.Prelude.{ℕ, ◌*◌, ◌≡◌, refl, false, some, List, [], ◌∷◌}
use ola_lang.Prelude.Int.{pos}
use ola_lang.Prelude.Outcome.{done}
use ola_lang.Sema.Ast.{fixed, dynamic, Ty, array, struct, storage_ref, uint, address}
use ola_lang.Sema.BigInt.Example.{ops}
use ola_lang.Sema.Types.{Field, slots, storage_slots, storage_array_elem, array_length}
use ola_lang.Sema.Types.Arrays.{storage_slots-storage_array_elem}

-- a struct of two words, and one of a word and that struct
abbrev decls : List (List Field)
decls =
    (record { ty = uint 32; infinite_size = false }
      ∷ record { ty = address; infinite_size = false }
      ∷ [])
    ∷ (record { ty = uint 32; infinite_size = false }
        ∷ record { ty = struct 0; infinite_size = false }
        ∷ [])
    ∷ []

struct_takes_three : storage_slots ops decls 2 (struct 1) ≡ slots (pos 3)
unfolding storage_slots ops
struct_takes_three = refl

storage_slots-storage_array_elem_example :
    (e : Ty) × (k : ℕ) × (storage_array_elem
        (storage_ref (array (struct 1) (dynamic ∷ fixed (pos 5) ∷ fixed (pos 7) ∷ [])))
      ≡ done e)
    × (storage_slots ops decls 2 e ≡ slots (pos k))
    × (storage_slots ops decls 2
          (storage_ref (array (struct 1) (dynamic ∷ fixed (pos 5) ∷ fixed (pos 7) ∷ [])))
        ≡ slots (pos (k * 7)))
    × (array_length (storage_ref (array (struct 1) (dynamic ∷ fixed (pos 5) ∷ fixed (pos 7) ∷ [])))
        ≡ done (some (pos 7)))
storage_slots-storage_array_elem_example =
    storage_slots-storage_array_elem ops decls 2 (struct 1) 3 (dynamic ∷ fixed (pos 5) ∷ [])
      (1 ∷ 5 ∷ []) (fixed (pos 7)) 7 struct_takes_three (refl, (refl, tt)) refl
