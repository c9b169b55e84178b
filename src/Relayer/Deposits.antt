-- ===== src/Relayer/Deposits.antt =====
-- The deposits that the relayer knows of, octora-api/src/modules/relayer/deposit.service.ts.
pub mod Numbered
mod Tests
use octora.Base.{
  ℕ, suc, String, Bool, not, ◌||◌, Option, some, List, [], ◌∷◌, ◌++◌, length, ltb, ◌===◌,
}
use octora.Base.Integers.{ℤ, pos, less}
use octora.Base.Effect.{ok, Effect, pure, guard, or_throw, ◌>>=◌, ◌>>◌}
use octora.Vault.{MerkleLibrary, create_vault_merkle_tree, insert_leaf, root, index_of, tree_levels}

pub record DepositRecord : Type 0 where
  pub commitment : String
  pub leaf_index : ℤ
  pub block_time : ℕ
  pub tx_signature : String

-- `tree_failed` is an error of the library, for a tree that is full or a root that is no number.
pub data DepositError : Type 0 where
  not_initialized commitment_not_positive no_real_signature tree_failed : DepositError

pub record DepositService (Tree : Type 0) : Type 0 where
  pub tree : Option Tree
  pub deposits : List DepositRecord

-- `text_length` is the length of a text in JavaScript.
module _ {Tree : Type 0} (lib : MerkleLibrary Tree) (text_length : String → ℕ) where
  abbrev pub Deposits : Type 0 → Type 0
  Deposits = Effect (DepositService Tree) DepositError

  abbrev pub historical : ℕ → List ℤ → List DepositRecord
  historical i [] = []
  historical i (c ∷ commitments) =
      record {
        commitment = lib.to_text c;
        leaf_index = pos i;
        block_time = 0;
        tx_signature = "historical";
      }
      ∷ historical (suc i) commitments

  abbrev pub set_tree : Tree → Deposits (Unit {0})
  set_tree tree s = (ok tt, record s { tree = some tree })

  abbrev pub set_deposits : List DepositRecord → Deposits (Unit {0})
  set_deposits deposits s = (ok tt, record s { deposits = deposits })

  abbrev pub push_deposit : DepositRecord → Deposits (Unit {0})
  push_deposit deposit s = (ok tt, record s { deposits = s.deposits ++ deposit ∷ [] })

  unfoldable pub initialize : List ℤ → Deposits (Unit {0})
  unfolding ◌>>=◌
  initialize existing = do
    tree ← or_throw (create_vault_merkle_tree lib tree_levels existing) tree_failed
    set_tree tree
    set_deposits (historical 0 existing)

  abbrev pub ensure_initialized : Deposits Tree
  ensure_initialized s = or_throw s.tree not_initialized s

  abbrev pub is_no_signature : String → Bool
  is_no_signature signature = (signature === "") || ltb (text_length signature) 32

  abbrev pub deposit_record : ℤ → String → ℕ → ℤ → DepositRecord
  deposit_record commitment tx_signature block_time leaf_index = record {
    commitment = lib.to_text commitment;
    leaf_index = leaf_index;
    block_time = block_time;
    tx_signature = tx_signature;
  }

  unfoldable pub record_deposit : ℤ → String → ℕ → Deposits ℤ
  unfolding ◌>>=◌
  record_deposit commitment tx_signature block_time = do
    tree ← ensure_initialized
    guard (less (pos 0) commitment) commitment_not_positive
    guard (not (is_no_signature tx_signature)) no_real_signature
    inserted ← or_throw (insert_leaf lib commitment tree) tree_failed
    set_tree inserted.1
    push_deposit (deposit_record commitment tx_signature block_time inserted.0)
    pure inserted.0

  unfoldable pub current_root : Deposits String
  unfolding ◌>>=◌
  current_root = do
    tree ← ensure_initialized
    number ← or_throw (root lib tree) tree_failed
    pure (lib.to_text number)

  abbrev pub get_tree : Deposits Tree
  get_tree = ensure_initialized

  abbrev pub deposit_count : DepositService Tree → ℕ
  deposit_count s = length s.deposits

  unfoldable pub find_commitment : ℤ → Deposits ℤ
  unfolding ◌>>=◌
  find_commitment commitment = do tree ← ensure_initialized; pure (index_of lib commitment tree)

  unfoldable pub next_leaf_index : Deposits ℤ
  unfolding ◌>>=◌
  next_leaf_index = do tree ← ensure_initialized; λ s. (ok (pos (length s.deposits)), s)
