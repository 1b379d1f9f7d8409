-- ===== src/Website/Inclusion/Counted.antt =====
-- When the check of inclusion.ts (apps/website/src/features/solutions/lib) counts a customer.
use solva.Prelude.{
  ℕ, ◌≡◌, refl, sym, ap, ◌∙◌, Bool, true, false, List, [], ◌∷◌, ◌++◌, Option, none, some,
}
use solva.Prelude.Int.{ℤ}
use solva.Prelude.Text.{Text, text_eq, text_eq_iff}
use solva.Website.Inclusion.{
  CustomerLeaf, InclusionSnapshot, counted, is_reference, accepted, normalize_reference, find_leaf,
  leaf_result, reference_result, check_inclusion,
}

-- The leaf stands somewhere in the list, under the reference.
abbrev pub Listed : Text → CustomerLeaf → List CustomerLeaf → Type 0
Listed reference leaf leaves =
    (before : List CustomerLeaf) × (behind : List CustomerLeaf) × (leaves ≡ before ++ leaf ∷ behind)
    × (leaf.reference ≡ reference)

find_leaf-Listed :
    (reference : Text) (leaves : List CustomerLeaf) (leaf : CustomerLeaf)
    → find_leaf reference leaves ≡ some leaf
    → Listed reference leaf leaves
unfolding find_leaf
find_leaf-Listed reference [] leaf h = cc
find_leaf-Listed reference (first ∷ leaves) leaf h =
    go (text_eq first.reference reference) refl h (λ k. find_leaf-Listed reference leaves leaf k)
  where
    go :
        (b : Bool)
        → text_eq first.reference reference ≡ b
        → find_leaf reference (first ∷ leaves) ≡ some leaf
        → (find_leaf reference leaves ≡ some leaf → Listed reference leaf leaves)
        → Listed reference leaf (first ∷ leaves)
    go true same k later =
        let found : first ≡ leaf = cc (simp same at k) in
        let equal : first.reference ≡ reference = (text_eq_iff first.reference reference).0 same in
        (
          [],
          leaves,
          ap (λ l. l ∷ leaves) found,
          sym (ap (λ (l : CustomerLeaf). l.reference) found) ∙ equal,
        )
    go false other k later =
        let (before, behind, split, equal) = later (simp other at k) in
        (first ∷ before, behind, ap (λ l. first ∷ l) split, equal)

accepted-eq-some : (s r : Text) → accepted s ≡ some r → is_reference r ≡ true
unfolding accepted
accepted-eq-some s r h = go (is_reference s) refl h
  where
    go : (b : Bool) → is_reference s ≡ b → accepted s ≡ some r → is_reference r ≡ true
    go true good k = let same : s ≡ r = cc (simp good at k) in sym (ap is_reference same) ∙ good
    go false bad k = cc (simp bad at k)

leaf_result-eq-counted :
    (q r : Text) (snapshot : InclusionSnapshot) (found : Option CustomerLeaf) (balance total : ℤ)
    (ledger : ℕ)
    → leaf_result q snapshot found ≡ counted r balance total ledger
    → (leaf : CustomerLeaf) × (found ≡ some leaf)
      × (q ≡ r)
      × (leaf.balance ≡ balance)
      × (snapshot.total ≡ total)
      × (snapshot.ledger ≡ ledger)
unfolding leaf_result
leaf_result-eq-counted q r snapshot none balance total ledger h = cc
leaf_result-eq-counted q r snapshot (some leaf) balance total ledger h =
    (leaf, refl, cc, cc, cc, cc)

-- A customer is counted only under a reference of the right form, when the snapshot lists that
-- reference with the balance that is shown; the total and the ledger shown are the snapshot's.
pub check_inclusion-eq-counted :
    (to_upper_case : Text → Text) (input r : Text) (snapshot : InclusionSnapshot)
    (balance total : ℤ) (ledger : ℕ)
    → check_inclusion to_upper_case input snapshot ≡ counted r balance total ledger
    → (is_reference r ≡ true)
      × ((leaf : CustomerLeaf) × Listed r leaf snapshot.customers × (leaf.balance ≡ balance))
      × (snapshot.total ≡ total)
      × (snapshot.ledger ≡ ledger)
unfolding check_inclusion normalize_reference reference_result
check_inclusion-eq-counted to_upper_case input r snapshot balance total ledger h =
    go (normalize_reference to_upper_case input) refl h
  where
    go :
        (q : Option Text)
        → normalize_reference to_upper_case input ≡ q
        → reference_result input snapshot q ≡ counted r balance total ledger
        → (is_reference r ≡ true)
          × ((leaf : CustomerLeaf) × Listed r leaf snapshot.customers × (leaf.balance ≡ balance))
          × (snapshot.total ≡ total)
          × (snapshot.ledger ≡ ledger)
    go none e k = cc
    go (some q) e k =
        let (leaf, found, same, b, t, l) =
          leaf_result-eq-counted q r snapshot (find_leaf q snapshot.customers) balance total ledger
            k in
        (
          ap is_reference (sym same) ∙ accepted-eq-some _ q e,
          (
            leaf,
            find_leaf-Listed r snapshot.customers leaf
                (ap (λ x. find_leaf x snapshot.customers) (sym same) ∙ found),
            b,
          ),
          t,
          l,
        )
