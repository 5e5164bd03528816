-- ===== src/Catalog.antt =====
-- internal/catalog/types.go and constants.go: what a catalog holds once its files are decoded.
use works_on_my_whiteboard.Prelude.{ℕ, Bool, Option, List, [], ◌∷◌, String}
use works_on_my_whiteboard.Alias.{AliasSet}

-- LifecycleStatus, EntityKind and LabKind are texts.
abbrev pub lifecycle_status_draft : String
lifecycle_status_draft = "draft"

abbrev pub lifecycle_status_complete : String
lifecycle_status_complete = "complete"

abbrev pub entity_kind_case : String
entity_kind_case = "case"

abbrev pub entity_kind_principle : String
entity_kind_principle = "principle"

abbrev pub entity_kind_lab : String
entity_kind_lab = "lab"

abbrev pub entity_kind_source : String
entity_kind_source = "source"

abbrev pub lab_kind_scenario : String
lab_kind_scenario = "scenario"

abbrev pub lab_kind_primitive : String
lab_kind_primitive = "primitive"

abbrev pub family_ids : List String
family_ids =
    "addressing-traffic" ∷ "distributed-storage" ∷ "feed-social-ranking" ∷ "realtime-collaboration"
    ∷ "search-crawl-geo" ∷ "media-delivery" ∷ "transactions-contention"
    ∷ "streaming-analytics-observability" ∷ "scheduling-control-plane" ∷ "ai-vector" ∷ []

abbrev pub dimension_ids : List String
dimension_ids =
    "problem-slo" ∷ "capacity-cost-skew" ∷ "contracts-data-invariants"
    ∷ "placement-routing-sharding" ∷ "consistency-ordering-time"
    ∷ "concurrency-transactions-idempotency" ∷ "cache-index-amplification"
    ∷ "async-backpressure-fairness" ∷ "failure-recovery-disaster"
    ∷ "observability-release-evolution" ∷ "security-privacy-multitenancy" ∷ "evidence-validation"
    ∷ []

pub record ScopeFamily : Type 0 where
  pub id : String
  pub title : String

pub record ScopeCase : Type 0 where
  pub id : String
  pub title : String
  pub primary_family : String

pub record ScopeExclusion : Type 0 where
  pub id : String
  pub canonical_case_id : String
  pub rationale : String

pub record Scope : Type 0 where
  pub schema_version : ℕ
  pub families : List ScopeFamily
  pub cases : List ScopeCase
  pub exclusions : List ScopeExclusion

pub record SourceRecord : Type 0 where
  pub id : String
  pub title : String
  pub url : String
  pub accessed_at : String
  pub kind : String
  pub license_note : String

pub record Claim : Type 0 where
  pub id : String
  pub statement : String

pub record EvidenceRequirement : Type 0 where
  pub claim : String
  pub lab : String

pub record CaseManifest : Type 0 where
  pub schema_version : ℕ
  pub id : String
  pub title : String
  pub primary_family : String
  pub secondary_families : List String
  pub required : Bool
  pub status : String
  pub dimensions : List String
  pub principles : List String
  pub claims : List Claim
  pub labs : List String
  pub evidence_requirements : List EvidenceRequirement
  pub sources : List String

pub record PrincipleManifest : Type 0 where
  pub schema_version : ℕ
  pub id : String
  pub title : String
  pub required : Bool
  pub status : String
  pub dimensions : List String
  pub claims : List Claim
  pub labs : List String
  pub evidence_requirements : List EvidenceRequirement
  pub sources : List String

pub record CaseBinding : Type 0 where
  pub id : String
  pub case_id : String
  pub claim : String
  pub workload : String
  pub assertions : List String

pub record PrincipleBinding : Type 0 where
  pub id : String
  pub principle_id : String
  pub claim : String
  pub workload : String
  pub assertions : List String

pub record AdapterRequirement : Type 0 where
  pub id : String
  pub required : Bool

-- `faults` is none for a nil slice, which the code tells from an empty one.
pub record RequiredRun : Type 0 where
  pub id : String
  pub binding : String
  pub baseline : String
  pub variants : List String
  pub workload : String
  pub faults : Option (List String)
  pub adapters : List AdapterRequirement

pub record LabManifest : Type 0 where
  pub schema_version : ℕ
  pub id : String
  pub kind : String
  pub required : Bool
  pub status : String
  pub implementations : List String
  pub case_bindings : List CaseBinding
  pub principle_bindings : List PrincipleBinding
  pub required_runs : List RequiredRun
  pub metrics : List String
  pub sources : List String

pub record AdapterManifest : Type 0 where
  pub schema_version : ℕ
  pub id : String
  pub title : String
  pub status : String
  pub interface : String
  pub runtime : String
  pub sources : List String

-- The maps are association lists with a key for each entry.
pub record Catalog : Type 0 where
  pub scope : Scope
  pub sources : List (String × SourceRecord)
  pub aliases : AliasSet
  pub cases : List (String × CaseManifest)
  pub principles : List (String × PrincipleManifest)
  pub labs : List (String × LabManifest)
  pub adapters : List (String × AdapterManifest)
