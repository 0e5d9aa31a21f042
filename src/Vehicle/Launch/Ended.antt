-- ===== src/Vehicle/Launch/Ended.antt =====
-- vehicle/launch.py: which processes are ended.
use steeleagle.Prelude.{String, ◌≡◌, refl, ◌⊎◌, inl, inr, Bool, Option, none, some, List, []}
use steeleagle.Vehicle.Launch.{
  DriverInfo, Fetched, missing, unreadable, found, Package, python_of, Launched, reversed,
  logger_processes, start_rest, start_driver, start_services,
}

-- Every process that was started is ended, in the opposite order.
abbrev Whole : Launched → Type 0
Whole l = l.ended ≡ reversed l.started

start_driver-Whole :
    (log : Bool) (info : DriverInfo) (startup : Fetched (List String)) (python : Fetched String)
    → Whole (start_driver log info startup python)
      ⊎ ((python ≡ missing)
          × (start_driver log info startup python
              ≡ record { started = logger_processes log; ended = [] }))
unfolding start_driver start_rest python_of
start_driver-Whole log info startup missing = inr (refl, refl)
start_driver-Whole log info startup unreadable = inl refl
start_driver-Whole log info startup (found v) = inl refl

-- A launch ends all that it started, the logger last if there is one, unless it has a driver whose
-- pyproject file is missing: then it has started at most the logger, and ends nothing.
start_services-Whole :
    (log : Bool) (info : Option DriverInfo) (files : Package)
    → Whole (start_services log info files)
      ⊎ ((files.python ≡ missing)
          × (start_services log info files ≡ record { started = logger_processes log; ended = [] }))
unfolding start_services start_rest
start_services-Whole log none files = inl refl
start_services-Whole log (some info) files = start_driver-Whole log info files.startup files.python
