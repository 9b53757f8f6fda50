-- ===== src/Validation/Workload.antt =====
-- internal/handler/validation/validation.go, ValidateWorkloadObject: one validation for each image. They
-- run at once, and their outputs arrive in any order; a validation sees the cache as it then is.
use connaisseur.Prelude.{◌≡◌, false, some, List, [], ◌∷◌, ◌++◌, map, Text, Result, ok}
use connaisseur.Kubernetes.Workload.{WorkloadObject}
use connaisseur.Kubernetes.Containers.{IdxType, consolidated_containers, image_set}
use connaisseur.Validation.Image.{ValidationInput, ValidationOutput, Metric, Setup, validate}

unfoldable pub input_of : List Text → Result (List Text) → Text × List IdxType → ValidationInput
input_of previous parents (image, idxs_types) = record {
  idxs_types = idxs_types;
  image = image;
  previous_images = previous;
  parent_images = parents;
}

-- the inputs of the validations that are started; the channel has their number as its capacity
unfoldable pub validate_workload_object :
    WorkloadObject → WorkloadObject → Result (List Text) → List ValidationInput
unfolding input_of
validate_workload_object new old parents =
    map (input_of (image_set old) parents) (consolidated_containers new)

-- what the receiver sees: the deadline, or an output of the channel
pub data Arrival : Type 0 where
  deadline : Arrival
  output : ValidationOutput → Arrival

-- Each arrival is the deadline or the output of one of the validations that are still running.
pub data IsRun (setup : Setup) : List ValidationInput → List Arrival → Type 0 where
  quiet : {inputs : List ValidationInput} → IsRun setup inputs []
  times_out :
      {inputs : List ValidationInput} (rest : List Arrival) → IsRun setup inputs (deadline ∷ rest)
  sends :
      {inputs : List ValidationInput} {rest : List Arrival} (before : List ValidationInput)
      (input : ValidationInput) (after : List ValidationInput) (st st' : setup.cache.State)
      (o : ValidationOutput) (ms : List Metric)
      → inputs ≡ before ++ input ∷ after
      → validate setup false input st ≡ ok ((some o, ms), st')
      → IsRun setup (before ++ after) rest
      → IsRun setup inputs (output o ∷ rest)
