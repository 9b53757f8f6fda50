-- ===== src/Alert/Load.antt =====
-- internal/alert/config.go: the names of the receivers, and LoadConfig, which reads its file as the
-- program's configuration is read.
use connaisseur.Prelude.{
  ℕ, ◌+◌, ◌⊎◌, inl, inr, List, [], ◌∷◌, ◌++◌, Text, lit, decimal, Result, ok, err,
}
use connaisseur.Utils.Files.{FileSystem}
use connaisseur.Config.Load.{Loader, Loaded, load}

-- the fields that are decoded and the name that is set
pub record NamedChannel : Type 0 where
  pub template_file : Text
  pub channel_name : Text

-- RequestSender.UnmarshalYAML, from the index `idx`
unfoldable pub name_receivers : ℕ → List Text → List NamedChannel
name_receivers idx [] = []
name_receivers idx (t ∷ ts) =
    record { template_file = t; channel_name = t ++ (lit "-" ++ decimal idx) }
    ∷ name_receivers (idx + 1) ts

abbrev pub load_config : {A : Type 0} → Loader A → FileSystem → Text → List Text → Loaded A
load_config loader fs base_dir path_elements = load loader fs base_dir path_elements

-- the templates of the receivers that are decoded, or the decoder's error
abbrev pub request_sender : List Text ⊎ Text → Result (List NamedChannel)
request_sender (inl receivers) = ok (name_receivers 0 receivers)
request_sender (inr e) = err e
