-- ===== src/Dsl/Loader.antt =====
-- sdk/src/steeleagle_sdk/dsl/compiler/loader.py: importing every module below the base packages. What
-- the walk over a package finds, and what importing a module raises, are functions.
pub mod Sorted
use steeleagle.Prelude.{
  String, Bool, true, false, ◌||◌, not, Option, none, some, List, [], ◌∷◌, map, ◌==◌, keep, codes,
  rsplit, has_prefix,
}

-- What an import that fails leaves in the report: the class of the exception and its message.
pub record Failure : Type 0 where
  pub exc_type : String
  pub message : String

pub record Failed : Type 0 where
  pub module_name : String
  pub failure : Failure

pub record Summary : Type 0 where
  pub base : String
  pub imported : List String
  pub failed : List Failed
  pub missing_base : Bool

-- Python's import system: the modules below a package, `none` where there is no such package, and
-- what importing a module raises, if it does.
pub record Importer : Type 0 where
  pub walk_packages : String → Option (List String)
  pub raised : String → Option Failure

-- `m.name.rsplit(".", 1)[-1]`
unfoldable pub short_name : String → String
unfolding rsplit
short_name name = elim (rsplit b'.' name) [ none ↦ name | some (front, back) ↦ back ]

-- `_SKIP_RULES`
unfoldable pub is_skipped : String → Bool
unfolding has_prefix
is_skipped short = has_prefix (codes "_") (codes short) || (short == "native")

-- `_walk_package`
unfoldable pub walk_package : Importer → String → Option (List String)
unfolding short_name is_skipped
walk_package i base = elim (i.walk_packages base) [
  | none ↦ none
  | some modules ↦ some (keep (λ (m : String). not (is_skipped (short_name m))) modules)
]

-- the report on one module, before those on the next ones
unfoldable pub add_module :
    String → Option Failure → List String × List Failed → List String × List Failed
add_module m none (imported, failed) = (m ∷ imported, failed)
add_module m (some f) (imported, failed) =
    (imported, record { module_name = m; failure = f } ∷ failed)

-- the loop over the modules
unfoldable pub import_modules : Importer → List String → List String × List Failed
unfolding add_module
import_modules i [] = ([], [])
import_modules i (m ∷ ms) = add_module m (i.raised m) (import_modules i ms)

-- the summary of one base package
unfoldable pub load_base : Importer → String → Summary
unfolding walk_package import_modules
load_base i base = elim (walk_package i base) [
  | none ↦ record { base = base; imported = []; failed = []; missing_base = true }
  | some modules ↦
      let (imported, failed) = import_modules i modules in
      record { base = base; imported = imported; failed = failed; missing_base = false }
]

-- `load_all`, with the default base where none is given
unfoldable pub load_all : Importer → List String → List Summary
unfolding load_base
load_all i [] = load_base i "steeleagle_sdk.dsl.types" ∷ []
load_all i (b ∷ bases) = map (load_base i) (b ∷ bases)
