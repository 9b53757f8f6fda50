-- ===== src/Lib.antt =====
-- Connaisseur: an admission controller for Kubernetes that verifies the signatures of images.
--
-- The API server sends an admission review to the handler (internal/handler/mutate.go). The handler
-- decodes the request's objects (internal/kubernetes), validates each image of the new object in a
-- goroutine of its own (internal/handler/validation), turns the outputs into a response with JSON
-- patches, and notifies receivers (internal/alert). The validation of an image parses its reference
-- (internal/image), chooses the most specific rule (internal/policy, internal/config), asks whether
-- it can be skipped (internal/handler/validation/skip.go, internal/caching), and else calls the
-- rule's validator (internal/validator).
--
-- The files. Every definition has the name of its function in the source, in snake case.
--   Prelude: texts as lists of bytes, with the functions of the package strings that are used; the
--     type Result of a value, an error or a panic; lists measured by native numbers.
--   Constants, Utils: internal/constants and internal/utils; Files is SafeFileName with the functions
--     of path/filepath that it calls, Logging the levels of the log, Validation the errors of a struct.
--   Policy, Config: NewMatch, Compare, MatchingRule, Validator and Load.
--   Image, Image/Registry: internal/image. SetDigest, which changes the image it is called on, returns
--     the changed image, and a validator returns the image that it leaves.
--   Caching: the choice of the cache, and Redis; a Store is any implementation of Cacher over a state.
--   Kubernetes: Workload (NewWorkloadObjectFromBytes), Containers (ConsolidatedContainers, ImageSet,
--     the paths), Parents (ParentContainerImagesFromKubeAPI), Admission (NewAdmissionRequestObjects).
--   Validators: the interface and the choice of a validator by its type, the static validator, the
--     choice of trust roots and the credentials. Cosign: ValidateImage and its verifiers, whose
--     outputs arrive in any order (IsOrder). Notation: ValidateImage, with the client that all
--     validations share as a state, and the trust store.
--     Notary: the client (notaryserver/client.go), the two loops that receive trust data (Download),
--     the checks of the base roles (Base) and of the delegations (Delegations), the search for the
--     digest (Search) and ValidateImage (Validator). Each has its configuration's UnmarshalYAML.
--   Validation: Skip, Image (ValidateImage with its deferred function), Workload (ValidateWorkloadObject).
--   Alert: Evaluation (EvalAndSendNotifications), Channel (Send and the message), Load (LoadConfig and
--     the names of the receivers), Template (the rewriting of templates).
--   Handler: Review (mutateReview), Mutate (handleMutate, HandleHealth and the metrics).
--   Server: cmd/connaisseur/main.go, up to the call of ListenAndServeTLS.
--   Tests: runs on concrete inputs.
--
-- Concurrency. The goroutines of a request send to a channel, and the receiving loop also waits for the
-- deadline. What the loop sees is a list of arrivals, and a relation IsRun says which lists can occur:
-- each arrival is the deadline or the result of a goroutine that is still running, in any order, and a
-- validation sees any state of the cache. After the last arrival the loop waits for the deadline. In the
-- validators a relation (IsOrder, IsFetched) says the same of their own goroutines, and a call that waits
-- for ever has no result.
--
-- Bounds. Every loop is a structural recursion on a list, a text or the number of results that
-- are awaited, so that no fuel is needed; only
-- `decimal` counts down from its argument, which is at least the number of digits. The expiry of the
-- cache keeps its int64 and its wrap-around; lengths are not bounded.
--
-- Parameters: the parser of references, the glob library, the decoders of JSON, YAML and Kubernetes
-- objects, the clients of the Kubernetes API and of Redis, the libraries that check signatures and the
-- metadata of TUF, the file system, templates and HTTP. A Go map is a list of entries; an
-- iteration over it takes the order of the list.
--
-- Not modelled: what a server does once it listens, and how a struct is validated, which are those
-- libraries' parts. The tests, the charts and the tool that creates test data have no part in the
-- program's decisions.
mod Prelude
mod Tests
pub mod Constants
pub mod Utils
pub mod Policy
pub mod Config
pub mod Image
pub mod Caching
pub mod Kubernetes
pub mod Validators
pub mod Validation
pub mod Alert
pub mod Handler
pub mod Server
