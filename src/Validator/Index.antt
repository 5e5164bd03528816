-- ===== src/Validator/Index.antt =====
-- internal/validator/coverage.go: laws of the indices of manifests by their IDs.
use works_on_my_whiteboard.Prelude.{
  ◌≡◌, Bool, false, Option, none, some, List, [], ◌∷◌, map, if◌then◌else◌, String, refl, ap, subst,
  ◌∙◌, arith, All, keep_if, Bool-cases, inl, inr,
}
use works_on_my_whiteboard.Prelude.Dict.{
  string_key, str_eq, str_eq_iff, lookup, insert, lookup-insert,
}
use works_on_my_whiteboard.Prelude.Sort.{stable_sort, insert_sorted, text_lt, text_lt_irrefl}
use works_on_my_whiteboard.Validator.{
  contains, sorted_entries, insert_new, insert_unless, index_into, index_by_id,
}

module _ {V : Type 0} where
  abbrev by_key : String × V → String × V → Bool
  by_key a b = text_lt a.0 b.0

  lookup-insert_sorted :
      (k : String) (e : String × V) (es : List (String × V))
      → lookup k (insert_sorted by_key e es) ≡ lookup k (e ∷ es)
  unfolding insert_sorted lookup
  lookup-insert_sorted k e [] = refl
  lookup-insert_sorted k e (f ∷ es) =
      ground
        (arith, lookup-insert_sorted k e es, str_eq_iff e.0 k, str_eq_iff f.0 k, text_lt_irrefl k)

  pub lookup-sorted_entries :
      (k : String) (es : List (String × V)) → lookup k (sorted_entries es) ≡ lookup k es
  unfolding sorted_entries stable_sort lookup
  lookup-sorted_entries k [] = refl
  lookup-sorted_entries k (e ∷ es) =
      lookup-insert_sorted k e (stable_sort by_key es)
      ∙ ap (λ rest. if str_eq e.0 k then some e.1 else rest) (lookup-sorted_entries k es)

  -- Each value under its own ID, and no key twice.
  abbrev pub IsIndex : (V → String) → List (String × V) → Type 0
  IsIndex id_of [] = Unit
  IsIndex id_of (e ∷ es) = (id_of e.1 ≡ e.0) × (lookup e.0 es ≡ none) × IsIndex id_of es

  insert-IsIndex :
      (id_of : V → String) (v : V) (es : List (String × V))
      → IsIndex id_of es
      → IsIndex id_of (insert (id_of v) v es)
  unfolding insert lookup
  insert-IsIndex id_of v [] h = (refl, refl, tt)
  insert-IsIndex id_of v (e ∷ es) h = elim (Bool-cases (str_eq e.0 (id_of v))) [
    | inl same ↦
        let eq = (str_eq_iff e.0 (id_of v)).0 same in
        rw same (refl, cc (ap (λ k. lookup k es) eq, h.1), h.2)
    | inr other ↦ rw other (
      h.0,
      ground (
        arith,
        lookup-insert (id_of v) e.0 v es,
        str_eq_iff (id_of v) e.0,
        str_eq_iff e.0 (id_of v),
        h.1,
      ),
      insert-IsIndex id_of v es h.2,
    )
  ]

  index_into-IsIndex :
      (id_of : V → String) (indexed es : List (String × V))
      → IsIndex id_of indexed
      → IsIndex id_of (index_into id_of indexed es)
  unfolding index_into
  index_into-IsIndex id_of indexed [] h = h
  index_into-IsIndex id_of indexed (e ∷ es) h =
      index_into-IsIndex id_of (insert_new (id_of e.1) e.1 indexed) es
        (split (lookup (id_of e.1) indexed))
    where
      split : (found : Option V) → IsIndex id_of (insert_unless found (id_of e.1) e.1 indexed)
      split (some old) = h
      split none = insert-IsIndex id_of e.1 indexed h

  pub index_by_id-IsIndex :
      (id_of : V → String) (entries : List (String × V)) → IsIndex id_of (index_by_id id_of entries)
  unfolding index_by_id
  index_by_id-IsIndex id_of entries = index_into-IsIndex id_of [] (sorted_entries entries) tt

  abbrev pub holds_at : (V → Bool) → Option V → Bool
  holds_at test none = false
  holds_at test (some v) = test v

  -- The IDs of the values that pass a test are the keys under which such a value stands.
  pub contains-of_index :
      (id_of : V → String) (test : V → Bool) (k : String) (es : List (String × V))
      → IsIndex id_of es
      → contains k (map (λ e. id_of e.1) (keep_if (λ e. test e.1) es)) ≡ holds_at test (lookup k es)
  unfolding lookup
  contains-of_index id_of test k [] h = refl
  contains-of_index id_of test k (e ∷ es) h =
      let rest = contains-of_index id_of test k es h.2 in
      let named = ap (λ i. str_eq i k) h.0 in
      elim (Bool-cases (str_eq e.0 k)) [
        | inl same ↦
            let gone : lookup k es ≡ none =
              subst (λ i. lookup i es ≡ none) ((str_eq_iff e.0 k).0 same) h.1 in
            let absent : contains k (map (λ f. id_of f.1) (keep_if (λ f. test f.1) es)) ≡ false =
              rest ∙ ap (λ found. holds_at test found) gone in
            elim (Bool-cases (test e.1)) [
              | inl passes ↦ rw (same, passes) (ground (arith, named))
              | inr fails ↦ rw (same, fails) absent
            ]
        | inr other ↦ elim (Bool-cases (test e.1)) [
          | inl passes ↦ rw (other, passes) (ground (arith, named, rest))
          | inr fails ↦ rw (other, fails) rest
        ]
      ]

  insert_sorted-IsIndex :
      (id_of : V → String) (e : String × V) (es : List (String × V))
      → IsIndex id_of (e ∷ es)
      → IsIndex id_of (insert_sorted by_key e es)
  unfolding insert_sorted lookup
  insert_sorted-IsIndex id_of e [] h = h
  insert_sorted-IsIndex id_of e (f ∷ es) h = elim (Bool-cases (by_key f e)) [
    | inr not_less ↦ rw not_less h
    | inl less ↦
        let apart = lookup_apart e.0 f es h.1 in
        rw less (
          h.2.0,
          lookup-insert_sorted f.0 e es ∙ rw apart.0 h.2.1,
          insert_sorted-IsIndex id_of e es (h.0, apart.1, h.2.2),
        )
  ]
    where
      lookup_apart :
          (k : String) (f : String × V) (es : List (String × V))
          → lookup k (f ∷ es) ≡ none
          → (str_eq k f.0 ≡ false) × (lookup k es ≡ none)
      lookup_apart k f es h = ground (arith, str_eq_iff k f.0, str_eq_iff f.0 k)

  pub sorted_entries-IsIndex :
      (id_of : V → String) (es : List (String × V))
      → IsIndex id_of es
      → IsIndex id_of (sorted_entries es)
  unfolding sorted_entries stable_sort
  sorted_entries-IsIndex id_of [] h = tt
  sorted_entries-IsIndex id_of (e ∷ es) h =
      insert_sorted-IsIndex id_of e (stable_sort by_key es)
        (h.0, lookup-sorted_entries e.0 es ∙ h.1, sorted_entries-IsIndex id_of es h.2)

  -- Each value of an index is found under its own ID.
  pub lookup_own :
      (id_of : V → String) (es : List (String × V))
      → IsIndex id_of es
      → All (λ e. lookup (id_of e.1) es ≡ some e.1) es
  unfolding lookup
  lookup_own id_of [] h = tt
  lookup_own id_of (e ∷ es) h =
      (ground (arith, h.0, str_eq_iff e.0 (id_of e.1)), later es (lookup_own id_of es h.2))
    where
      later :
          (fs : List (String × V))
          → All (λ f. lookup (id_of f.1) es ≡ some f.1) fs
          → All
              (λ f. (if str_eq e.0 (id_of f.1) then some e.1 else lookup (id_of f.1) es) ≡ some f.1)
              fs
      later [] k = tt
      later (f ∷ fs) k = (
        elim (Bool-cases (str_eq e.0 (id_of f.1))) [
          | inl same ↦
              let gone = ap (λ i. lookup i es) ((str_eq_iff e.0 (id_of f.1)).0 same) in
              cc (gone, h.1, k.0)
          | inr other ↦ rw other k.0
        ],
        later fs k.1,
      )

  -- What is found under a key has it as its ID, and what holds of all values.
  pub lookup-id :
      (id_of : V → String) (k : String) (es : List (String × V)) (v : V)
      → IsIndex id_of es
      → lookup k es ≡ some v
      → id_of v ≡ k
  unfolding lookup
  lookup-id id_of k [] v h found = cc
  lookup-id id_of k (e ∷ es) v h found = elim (Bool-cases (str_eq e.0 k)) [
    | inl same ↦ ground (arith, h.0, (str_eq_iff e.0 k).0 same)
    | inr other ↦ lookup-id id_of k es v h.2 (ground arith)
  ]

  pub lookup-All :
      (P : V → Type 0) (k : String) (es : List (String × V)) (v : V)
      → All (λ e. P e.1) es
      → lookup k es ≡ some v
      → P v
  unfolding lookup
  lookup-All P k [] v h found = cc
  lookup-All P k (e ∷ es) v h found = elim (Bool-cases (str_eq e.0 k)) [
    | inl same ↦ let eq : e.1 ≡ v = ground arith in subst P eq h.0
    | inr other ↦ lookup-All P k es v h.1 (ground arith)
  ]
