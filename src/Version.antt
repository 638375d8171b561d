-- ===== src/Version.antt =====
-- The version of the library (version.go).
use incite.Base.{
  Bool, true, false, Option, none, some, List, [], ◌∷◌, ◌++◌, Text, codes, text_eq, if◌then◌else◌,
  ◌≡◌, refl,
}

-- A dependency in the build information of package debug.
pub record Dependency : Type 0 where
  pub path : Text
  pub version : Text

abbrev pub module_path : Text
module_path = codes "github.com/gogama/incite"

-- versionCache and versionOnce.
pub record Cache : Type 0 where
  pub text : Text
  pub is_done : Bool

abbrev pub new_cache : Cache
new_cache = record { text = module_path; is_done = false }

-- The loop over the dependencies.
unfoldable pub with_version : Text → List Dependency → Text
with_version text [] = text
with_version text (d ∷ ds) =
    let rest = with_version text ds in
    if text_eq d.path module_path then text ++ codes " " ++ d.version else rest

abbrev pub read_info : Text → Option (List Dependency) → Text
read_info text none = text
read_info text (some deps) = with_version text deps

-- version, with what debug.ReadBuildInfo gives: the dependencies, or that there is no information.
unfoldable pub version : Option (List Dependency) → Cache → Cache × Text
unfolding with_version
version info c =
    let text = if c.is_done then c.text else read_info c.text info in
    (record { text = text; is_done = true }, text)

-- The first call settles what every call returns.
version-again :
    (info later : Option (List Dependency)) (c : Cache)
    → version later (version info c).0 ≡ version info c
unfolding version
version-again info later c = refl
