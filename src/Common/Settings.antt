-- ===== src/Common/Settings.antt =====
-- How the programs read their configuration: the sources that they name to the config crate, which reads
-- them and is a parameter. In a later source a value overrides that of an earlier one.
use id2203_project.Base.{String, Bool, Option, List}

-- A file, or the variables of the environment that begin with a prefix: whether their values are parsed,
-- the separator of lists, and the keys whose values are lists.
pub data Source : Type 0 where
  file : String → Source
  environment : String → Bool → Option String → List String → Source

-- `build` and `try_deserialize`.
pub data Loaded (E Config : Type 0) : Type 0 where
  failed : E → Loaded E Config
  loaded : Config → Loaded E Config

abbrev pub Loader : Type 0 → Type 0 → Type 0
Loader E Config = List Source → Loaded E Config

abbrev pub Variables : Type 0
Variables = String → Option String
