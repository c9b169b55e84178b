-- ===== src/Vault.antt =====
-- The Merkle tree of the commitments, octora-api/src/modules/vault/merkle/merkle-tree.ts. The class
-- MerkleTree of fixed-merkle-tree, which hashes by Poseidon, is a parameter.
use octora.Base.{
  ℕ, zero, suc, String, ◌≡◌, refl, ap, ◌∙◌, Option, none, some, List, [], ◌∷◌, ◌++◌, arith, length,
  length-append, map, Option-cases, ◌⊎◌, inl, inr,
}
use octora.Base.Integers.{ℤ, pos, negsuc}

pub record MerkleProof : Type 0 where
  pub path_elements : List String
  pub path_indices : List ℕ

-- The library's tree, and JavaScript's conversions of integers. `none` is a thrown error.
pub record MerkleLibrary (Tree : Type 0) : Type 0 where
  pub new_tree : ℕ → List String → Option Tree
  pub insert_element : String → Tree → Option Tree
  pub elements_of : Tree → List String
  pub path_of : ℤ → Tree → Option MerkleProof
  pub root_of : Tree → String
  pub index_of_element : String → Tree → ℤ
  pub to_text : ℤ → String
  pub to_number : String → Option ℤ

abbrev pub tree_levels : ℕ
tree_levels = 20

-- `length - 1`
abbrev pub last_index : ℕ → ℤ
last_index zero = negsuc 0
last_index (suc n) = pos n

module _ {Tree : Type 0} (lib : MerkleLibrary Tree) where
  unfoldable pub create_vault_merkle_tree : ℕ → List ℤ → Option Tree
  create_vault_merkle_tree levels leaves = lib.new_tree levels (map lib.to_text leaves)

  abbrev pub placed : Option Tree → Option (ℤ × Tree)
  placed none = none
  placed (some later) = some (last_index (length (lib.elements_of later)), later)

  unfoldable pub insert_leaf : ℤ → Tree → Option (ℤ × Tree)
  insert_leaf commitment tree = placed (lib.insert_element (lib.to_text commitment) tree)

  unfoldable pub get_proof : ℤ → Tree → Option MerkleProof
  get_proof leaf_index tree = lib.path_of leaf_index tree

  unfoldable pub root : Tree → Option ℤ
  root tree = lib.to_number (lib.root_of tree)

  unfoldable pub index_of : ℤ → Tree → ℤ
  index_of commitment tree = lib.index_of_element (lib.to_text commitment) tree

  unfoldable pub elements : Tree → List String
  elements tree = lib.elements_of tree

  -- What the library documents: a new tree has the given elements, and an element goes to the end.
  pub record IsAppending : Type 0 where
    pub elements_new :
        (levels : ℕ) (leaves : List String) (tree : Tree)
        → lib.new_tree levels leaves ≡ some tree
        → lib.elements_of tree ≡ leaves
    pub elements_insert :
        (leaf : String) (tree later : Tree)
        → lib.insert_element leaf tree ≡ some later
        → lib.elements_of later ≡ lib.elements_of tree ++ leaf ∷ []

  module _ (laws : IsAppending) where
    last-append :
        (xs : List String) (x : String) → last_index (length (xs ++ x ∷ [])) ≡ pos (length xs)
    last-append xs x =
        ap last_index {y = suc (length xs)} (omega (arith, length-append xs (x ∷ [])))

    -- A commitment is inserted at the next place, or the tree is full.
    pub insert_leaf-cases :
        (commitment : ℤ) (tree : Tree)
        → (insert_leaf commitment tree ≡ none)
          ⊎ ((later : Tree) × (insert_leaf commitment tree
                ≡ some (pos (length (elements tree)), later))
              × (elements later ≡ elements tree ++ lib.to_text commitment ∷ []))
    unfolding insert_leaf elements
    insert_leaf-cases commitment tree =
        elim (Option-cases (lib.insert_element (lib.to_text commitment) tree)) [
          | inl h ↦ inl (rw h refl)
          | inr (later, h) ↦
              let grown = laws.elements_insert (lib.to_text commitment) tree later h in
              inr (
                later,
                rw h (
                    ap (λ i. some (i, later))
                      (ap (λ xs. last_index (length xs)) grown
                        ∙ last-append (lib.elements_of tree) (lib.to_text commitment))),
                grown,
              )
        ]
