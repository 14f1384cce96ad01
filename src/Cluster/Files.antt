-- ===== src/Cluster/Files.antt =====
-- Directories: what is listed of them, and the artifacts that they hold (types.go of
-- gitops-operator/controllers/common/types).
use keptn_gitops_operator.Base.{String, Bool, Option, GoError}

-- os.FileInfo, as far as it is looked at.
pub record DirEntry : Type 0 where
  pub name : String
  pub is_dir : Bool

-- What Walk gives to its function: a path, whether it is a directory, and the error of reading it.
pub record WalkEntry : Type 0 where
  pub path : String
  pub is_dir : Bool
  pub err : Option GoError

pub record DirectoryData : Type 0 where
  pub directory_name : String
  pub path : String

pub record KeptnArtifactMetadataSpec : Type 0 where
  pub version : String
  pub config_version : String
  pub chart_dir : String
  pub overwrite_tag : Bool
  pub project : String
