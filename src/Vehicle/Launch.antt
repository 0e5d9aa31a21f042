-- ===== src/Vehicle/Launch.antt =====
-- vehicle/launch.py: which processes `start_services` starts, and in which order they end. What the
-- requests for the driver's package files come to is an input; waiting takes no time.
pub mod Ended
use steeleagle.Prelude.{String, Bool, Option, none, some, List, [], ◌∷◌, ◌++◌, if◌then◌else◌, all}

-- A process, by its command line.
abbrev pub Process : Type 0
Process = List String

-- `info`: the driver that is to be started.
pub record DriverInfo : Type 0 where
  pub name : String
  pub package_name : String
  pub address : String
  pub telemetry : String
  pub imagery : String
  -- the text of the arguments, if there are any
  pub kwargs : Option String

-- What a request for a file comes to: no such file, a file that cannot be read as wanted, or the
-- value that is read from it.
pub data Fetched (T : Type 0) : Type 0 where
  missing unreadable : Fetched T
  found : T → Fetched T

pub record Package : Type 0 where
  -- `startup` of cap.toml
  pub startup : Fetched (List String)
  -- `requires-python` of pyproject.toml
  pub python : Fetched String

-- the startup commands for the kernel
unfoldable pub startup_of : Fetched (List String) → List String
startup_of missing = []
startup_of unreadable = []
startup_of (found commands) = commands

-- the Python version; `none` where the function returns early
unfoldable pub python_of : Fetched String → Option String
python_of missing = none
python_of unreadable = some "3.12"
python_of (found version) = some version

unfoldable pub driver_process : DriverInfo → String → Process
driver_process i python =
    "uvx"
      ∷ "--extra-index-url"
      ∷ "https://git.cmusatyalab.org/api/v4/projects/85/packages/pypi/simple"
      ∷ "--python"
      ∷ python
      ∷ i.package_name
      ∷ (elim i.kwargs [ none ↦ [] | some k ↦ "--kwargs" ∷ k ∷ [] ])
    ++ i.name ∷ i.address ∷ i.telemetry ∷ i.imagery ∷ []

unfoldable pub logger_processes : Bool → List Process
logger_processes log = if log then ("python" ∷ "logger/main.py" ∷ []) ∷ [] else []

unfoldable pub kernel_process : List String → Process
kernel_process [] = "python" ∷ "kernel/main.py" ∷ []
kernel_process (s ∷ startup) = "python" ∷ "kernel/main.py" ∷ "--startup" ∷ s ∷ startup

-- What a launch comes to: the processes in the order of their start, and those that are waited for, or
-- ended on an exit, in their order.
pub record Launched : Type 0 where
  pub started : List Process
  pub ended : List Process

unfoldable pub reversed : List Process → List Process
reversed [] = []
reversed (p ∷ ps) = reversed ps ++ p ∷ []

-- from the mission on
unfoldable pub start_rest : List Process → List String → Launched
unfolding kernel_process reversed
start_rest running startup =
    let all = running ++ ("python" ∷ "mission/main.py" ∷ []) ∷ kernel_process startup ∷ [] in
    record { started = all; ended = reversed all }

-- with a driver; without its pyproject file the function returns and ends nothing
unfoldable pub start_driver : Bool → DriverInfo → Fetched (List String) → Fetched String → Launched
unfolding startup_of python_of driver_process logger_processes start_rest
start_driver log info startup python = elim (python_of python) [
  | none ↦ record { started = logger_processes log; ended = [] }
  | some version ↦
      start_rest (logger_processes log ++ driver_process info version ∷ []) (startup_of startup)
]

unfoldable pub start_services : Bool → Option DriverInfo → Package → Launched
unfolding start_driver logger_processes start_rest
start_services log none files = start_rest (logger_processes log) []
start_services log (some info) files = start_driver log info files.startup files.python
