-- ===== src/Lib.antt =====
-- The laboratories of Works On My Whiteboard and the validator of its catalog: the token bucket,
-- the distributed rate limiter that stands on it, the harness that runs experiments on them, the
-- checks that decide whether the catalog of cases, principles and labs can be released, the
-- records of evidence that runs leave, and the manifest of a release.
--
-- Parts:
--   GoTime           package time, as far as the laboratories use it: instants, durations, and the
--                    saturation of Add and Sub.
--   Bucket           labs/primitives/token-bucket/bucket.go: Config, Bucket and Decision are records with
--                    the source's fields; New, Take, Available, observeLocked and retryAfter are the
--                    functions new, take, available, observe_locked and retry_after. A method is a
--                    function that returns the new record beside its result.
--   Bucket/Spec      the bucket over the unbounded numbers, which the code refines.
--   Bucket/Reference labs/primitives/token-bucket/run.go: the reference bucket of the experiment.
--   Limiter          labs/scenarios/distributed-rate-limiter/limiter.go: the validation, and the critical
--                    section that looks a bucket up, creates it and asks it.
--   Limiter/Shared, Limiter/Coordinated, Limiter/PerNode
--                    the coordinators and the two limiters. A limiter takes any coordinator, which is a
--                    state and a function to a new state and a result.
--   Harness          labs/harness: the records of types.go; Harness/Recorder is recorder.go with its
--                    snapshots, Harness/Spec the preflight of a run, Harness/Runner the manual clock and
--                    the run itself.
--   Experiment       labs/primitives/token-bucket/run.go: the probes of the experiment as actions of the
--                    harness, and the specification that BuildRunSpec returns.
--   Scenario         labs/scenarios/distributed-rate-limiter/scenario.go: the state of the scenario, its
--                    actions (request, availability, observe), its assertions and its two
--                    specifications.
--   Alias            internal/catalog/alias.go: ValidateCanonical and Resolve on the map of terminals;
--                    Alias/Build is NewAliasSet.
--   Catalog          internal/catalog/types.go and constants.go: the records of a decoded catalog.
--   Diagnostics      internal/validator/diagnostic.go: diagnostics, their codes and their order.
--   Validator        internal/validator/coverage.go: the sets of texts and the indices by ID.
--   Validator/Coverage
--                    the rest of coverage.go: ComputeCoverage is compute_coverage.
--   Validator/Cycle, Validator/Graph
--                    graph.go: the search for a cycle, with the variables that its closure shares as a
--                    record, and the diagnostics of dependencies.
--   Validator/References
--                    references.go: the checks of references, of sources and of claims.
--   Validator/Schema schema.go: the schema of each entity, and the fields that complete manifests need.
--   Validator/Matrix matrix.go: the checks of a run, and the cells of the required matrix.
--   Validator/Report validate.go: Validate, which puts the parts together.
--   Evidence         internal/evidence/model.go: records of evidence and the patterns of their texts, with
--                    validAttemptID and the Parse of internal/inputdigest/digest.go; Evidence/Whitespace is
--                    normalizeWhitespace and Evidence/Validate validateRecord.
--   Evidence/Seal    Seal of model.go, and Encode of internal/evidence/content_digest.go.
--   Release          internal/release/model.go and validate.go: manifests and validateManifest.
--
-- State and time: an instant is the number of nanoseconds since the earliest one of time.Time; a
-- uint64 keeps its wrap-around (u64) and so does an int64 (int64). The mutexes make each call
-- one step, so a concurrent use is a sequence of calls. A context is the sequence of its answers
-- to Err(), in the order of the places that ask. Maps are association lists. An error is a tree
-- of sentinels, messages, wrappers and joins, without the values that are printed into a
-- message.
--
-- Loops, on fuel: the walk along the wrappers of an error has the source's own bound; the binary
-- search the length of its interval, which shrinks in each round; the search for a dependency
-- cycle one more than the names of its graph, and the search for the terminals of aliases one
-- more than the aliases, since each nested call has one name less that is not visited. All else
-- is structural recursion.
--
-- Outside code: url.Parse of package net/url, as far as a source's URL is concerned, is a
-- parameter of the validation; the encoder of encoding/json and the SHA-256 of crypto/sha256 are
-- parameters of Seal and Encode.
--
-- Not modelled: the decoding and loading of a catalog, reports, the building, audit and storage
-- of releases, the store of evidence, and the command line, which are input and output for a
-- good part; the values that are printed into messages, and the index of a list item in the name
-- of a missing field. The preflight model has nil actions and checks as `none`; a run never
-- reaches one.
pub mod Alias
pub mod Bucket
pub mod Catalog
pub mod Diagnostics
pub mod Evidence
pub mod Experiment
pub mod GoTime
pub mod Harness
pub mod Limiter
pub mod Prelude
pub mod Release
pub mod Scenario
pub mod Validator
