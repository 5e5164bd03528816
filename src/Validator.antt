-- ===== src/Validator.antt =====
-- internal/validator/coverage.go: the sets of texts and the indices that the validator shares.
mod Examples
pub mod Sets
pub mod Index
pub mod Coverage
pub mod Cycle
pub mod Graph
pub mod References
pub mod Schema
pub mod Matrix
pub mod Report
use works_on_my_whiteboard.Prelude.{
  Bool, not, Option, none, some, List, [], ◌∷◌, map, if◌then◌else◌, String, Result, ok, err, any_of,
  keep_if,
}
use works_on_my_whiteboard.Prelude.Dict.{string_key, str_eq, lookup, insert}
use works_on_my_whiteboard.Prelude.Sort.{stable_sort, text_lt}
use works_on_my_whiteboard.Alias.{resolve}
use works_on_my_whiteboard.Catalog.{
  Catalog, CaseManifest, PrincipleManifest, LabManifest, AdapterManifest, SourceRecord,
}

-- A stringSet is the list of its keys, each once; their order is never seen but through `sorted`.
abbrev pub contains : String → List String → Bool
contains value set = any_of (λ v. str_eq v value) set

abbrev pub add : String → List String → List String
add value set = if contains value set then set else value ∷ set

unfoldable pub make_string_set : List String → List String
make_string_set [] = []
make_string_set (value ∷ values) = add value (make_string_set values)

unfoldable pub sorted : List String → List String
sorted set = stable_sort text_lt set

unfoldable pub sorted_difference : List String → List String → List String
sorted_difference left right =
    sorted (make_string_set (keep_if (λ value. not (contains value right)) left))

abbrev pub resolved_or : String → Result String → String
resolved_or id (ok resolved) = resolved
resolved_or id (err e) = id

unfoldable pub resolve_id : Catalog → String → String → String
resolve_id c kind id = resolved_or id (resolve c.aliases.terminals kind id)

module _ {V : Type 0} where
  -- The keys in order, each with its value: what a loop over sortedStringMapKeys reads.
  unfoldable pub sorted_entries : List (String × V) → List (String × V)
  sorted_entries entries = stable_sort (λ a b. text_lt a.0 b.0) entries

  -- indexed[id] = value, unless it is there.
  abbrev pub insert_unless : Option V → String → V → List (String × V) → List (String × V)
  insert_unless (some old) id value indexed = indexed
  insert_unless none id value indexed = insert id value indexed

  abbrev pub insert_new : String → V → List (String × V) → List (String × V)
  insert_new id value indexed = insert_unless (lookup id indexed) id value indexed

  unfoldable pub index_into :
      (V → String) → List (String × V) → List (String × V) → List (String × V)
  index_into id_of indexed [] = indexed
  index_into id_of indexed (entry ∷ entries) =
      index_into id_of (insert_new (id_of entry.1) entry.1 indexed) entries

  -- The values under their own IDs, the first of each ID in the order of the keys.
  unfoldable pub index_by_id : (V → String) → List (String × V) → List (String × V)
  index_by_id id_of entries = index_into id_of [] (sorted_entries entries)

unfoldable pub case_manifests_by_id : Catalog → List (String × CaseManifest)
case_manifests_by_id c = index_by_id (λ m. m.id) c.cases

unfoldable pub principle_manifests_by_id : Catalog → List (String × PrincipleManifest)
principle_manifests_by_id c = index_by_id (λ m. m.id) c.principles

unfoldable pub lab_manifests_by_id : Catalog → List (String × LabManifest)
lab_manifests_by_id c = index_by_id (λ m. m.id) c.labs

unfoldable pub adapter_manifests_by_id : Catalog → List (String × AdapterManifest)
adapter_manifests_by_id c = index_by_id (λ m. m.id) c.adapters

unfoldable pub source_records_by_id : Catalog → List (String × SourceRecord)
source_records_by_id c = index_by_id (λ m. m.id) c.sources
