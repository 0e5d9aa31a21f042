-- ===== src/Dsl/Loader/Sorted.antt =====
-- sdk/src/steeleagle_sdk/dsl/compiler/loader.py: which modules are reported as imported and as failed.
use steeleagle.Prelude.{
  String, ◌≡◌, refl, ap, Bool, true, false, not, Option, none, some, List, [], ◌∷◌, map, arith,
  keep,
}
use steeleagle.Dsl.Loader.{Failure, Failed, Importer, add_module, import_modules}

abbrev fails_by : Option Failure → Bool
fails_by none = false
fails_by (some f) = true

-- Importing the module raises.
abbrev fails : Importer → String → Bool
fails i m = fails_by (i.raised m)

abbrev module_of : Failed → String
module_of f = f.module_name

-- The lists are those of the modules that import and of the others.
abbrev Sorted : Importer → List String → List String × List Failed → Type 0
Sorted i ms report =
    (report.0 ≡ keep (λ (m : String). not (fails i m)) ms)
    × (map module_of report.1 ≡ keep (fails i) ms)

add_module-Sorted :
    (i : Importer) (m : String) (o : Option Failure) (ms : List String)
    (report : List String × List Failed)
    → i.raised m ≡ o
    → Sorted i ms report
    → Sorted i (m ∷ ms) (add_module m o report)
unfolding add_module
add_module-Sorted i m none ms report e (p, q) =
    let no : fails i m ≡ false = ap fails_by e in (ground (arith, p, no), ground (arith, q, no))
add_module-Sorted i m (some f) ms report e (p, q) =
    let yes : fails i m ≡ true = ap fails_by e in (ground (arith, p, yes), ground (arith, q, yes))

-- The modules that import are reported as imported and the others as failed, each list in the order of
-- the walk; one that fails does not keep the next from being imported.
import_modules-Sorted : (i : Importer) (ms : List String) → Sorted i ms (import_modules i ms)
unfolding import_modules
import_modules-Sorted i [] = (refl, refl)
import_modules-Sorted i (m ∷ ms) =
    add_module-Sorted i m (i.raised m) ms (import_modules i ms) refl (import_modules-Sorted i ms)
