-- ===== src/Relayer/Deposits/Tests.antt =====
-- Two deposits into a tree that keeps its leaves in a list.
use octora.Base.{◌≡◌, ◌⊎◌, refl, sym, ap, String, Option, none, some, List, [], ◌∷◌, ◌++◌}
use octora.Base.Integers.{pos}
use octora.Base.Effect.{err}
use octora.Vault.{MerkleLibrary, IsAppending, create_vault_merkle_tree}
use octora.Relayer.Deposits.{
  DepositError, DepositService, initialize, record_deposit, next_leaf_index,
}
use octora.Relayer.Deposits.Numbered.{IsNumbered, initialize-IsNumbered, record_deposit-IsNumbered}

abbrev test_tree : MerkleLibrary (List String)
test_tree = record {
  new_tree = λ levels leaves. some leaves;
  insert_element = λ leaf leaves. some (leaves ++ leaf ∷ []);
  elements_of = λ leaves. leaves;
  path_of = λ i leaves. none;
  root_of = λ leaves. "0";
  index_of_element = λ leaf leaves. pos 0;
  to_text = λ leaf. "c";
  to_number = λ text. some (pos 0);
}

abbrev or_nothing : Option (List String) → List String
or_nothing none = []
or_nothing (some leaves) = leaves

abbrev test_laws : IsAppending test_tree
test_laws = record {
  elements_new = λ levels leaves tree e. sym (ap or_nothing e);
  elements_insert = λ leaf tree later e. sym (ap or_nothing e);
}

abbrev test_service : DepositService (List String)
test_service =
    (initialize test_tree (λ text. 88) (pos 4 ∷ pos 6 ∷ [])
      (record { tree = none; deposits = [] })).1

record_deposit-IsNumbered_example :
    IsNumbered test_tree
      (λ text. 88)
      test_laws
      (record_deposit test_tree (λ text. 88) (pos 9) "signature" 7 test_service).1
    × (((e : DepositError) × (record_deposit test_tree
              (λ text. 88)
              (pos 9)
              "signature"
              7
              test_service
            ≡ (err e, test_service)))
        ⊎ ((record_deposit test_tree (λ text. 88) (pos 9) "signature" 7 test_service).0
            ≡ (next_leaf_index test_tree (λ text. 88) test_service).0))
unfolding create_vault_merkle_tree
record_deposit-IsNumbered_example =
    record_deposit-IsNumbered test_tree (λ text. 88) test_laws (pos 9) "signature" 7 test_service
      (initialize-IsNumbered test_tree (λ text. 88) test_laws (pos 4 ∷ pos 6 ∷ []) ("c" ∷ "c" ∷ [])
        (record { tree = none; deposits = [] }) refl)
