-- ===== src/Lib.antt =====
-- SteelEagle: the decisions of the vehicle and of its missions.
--
-- A vehicle runs a kernel, a mission service and drivers. Every call of a kernel service passes an
-- interceptor (vehicle/kernel/laws/interceptor.py), which asks the law authority
-- (vehicle/kernel/laws/authority.py) whether the law of the moment allows it and lets the authority
-- change the law; commands from the swarm controller come in by the command handler
-- (vehicle/kernel/handlers/command_handler.py), which has the authority send them and fires a failsafe
-- when the controller falls silent; the swarm controller (backend/server/swarm_controller) numbers
-- them and matches the replies. The compute service tells the stream handler which engines frames
-- go to; the engines (backend/server/engines) keep what they learn in Redis. A mission is a text: the compiler (sdk/src/steeleagle_sdk/dsl/compiler) makes an intermediate
-- representation of it, the mission service (vehicle/mission/mission_service.py) is handed that
-- representation and starts the runtime (sdk/src/steeleagle_sdk/dsl/runtime), whose state machine races
-- the action of each state against the events that may end it. An action orders the vehicle through the
-- API (sdk/src/steeleagle_sdk/api), which calls the kernel's services; a patrol first has its area cut
-- into waypoints (sdk/src/steeleagle_sdk/api/map).
--
-- Parts and files:
--   Prelude            native numbers, texts, lists, dicts as association lists, and Result, whose
--                      `err` carries the class of the Python exception
--   Law/Kernel         what the authority takes from Protobuf and gRPC, as a record of functions
--   Law/Glob           `fnmatch` of Python's standard library
--   Law/Commands       `_send_commands`, `native_grpc_call`, `generate_response`
--   Law/Authority      `LawAuthority`: start, allows, match, failsafe, set_law. `_law` and `_base` are
--                      references into `_spec`, so they are looked up there, and the list that
--                      `failsafe` extends in place is written back to the specification
--   Law/Interceptor    `LawInterceptor.intercept`, and sequences of calls, failsafes and changes of law
--   Vehicle/Remote     `CommandHandler._handle_commands` as rounds over polls, `_send_results`
--   Vehicle/Sinks      `ComputeService` and `StreamHandler.update_target_engines`
--   Dsl/Ir, Dsl/Registry, Dsl/Transformer, Dsl/Resolver, Dsl/Validator
--                      ir.py, registry.py, transformer.py, resolver.py, validator.py of the compiler;
--                      Dsl.Validator.compile is `start` of the transformer behind the parser
--   Dsl/Events         the `check` of each event in dsl/types/events/singulars/singulars.py
--   Map/Shapes         what the map tools take from floats and from Shapely
--   Map/GeoPoints, Map/Transects, Map/Partition, Map/Kml
--                      geopoints.py, utils.py and algos/ of api/map/partitioner
--   Map/Waypoints      `Waypoints.calculate` of dsl/types/datatypes/waypoint.py
--   Sdk/Calls, Sdk/Vehicle, Sdk/Compute
--                      utils.py, vehicle.py and compute.py of sdk/src/steeleagle_sdk/api
--   Sdk/Times          duration.py and timestamp.py of api/datatypes
--   Sdk/Actions        dsl/types/actions/primitives, the actions that are one order
--   Sdk/Procedures     dsl/types/actions/procedures, the actions made of others
--   Backend/Redis      the commands that the engines send to Redis
--   Backend/Telemetry  `updateVehicle` and `handle` of engines/telemetry/telemetry_engine.py
--   Backend/OpenScout  engines/detection/openscout_object_engine.py from the model's results on
--   Sdk/Actions/Lawful the orders of actions at the law interceptor
--   Backend/Avoidance  engines/avoidance/obstacle_avoidance_engine.py from the contours on
--   Backend/Delivery   `CompileMission`, the document of a mission, and `_load` of the mission service
--   Backend/Slam       engines/slam/terraslam.py
--   Backend/Wizard     backend/server/setup_wizard.py
--   Dsl/Hints, Dsl/Completions
--                      dsl/tools/language_server/registry_completions.py
--   Dsl/Server         dsl/tools/language_server/main.py
--   Dsl/Loader         dsl/compiler/loader.py
--   Vehicle/Config     `query_config` of vehicle/util/config.py
--   Vehicle/Log        vehicle/util/log.py
--   Vehicle/Startup    vehicle/util/sockets.py, `StreamHandler.__init__` and its producers, `main` of kernel/main.py
--   Vehicle/Gabriel    vehicle/compute/gabriel_compute.py
--   Vehicle/Launch     `start_services` of vehicle/launch.py
--   Gcs/Control        the commands of gcs/streamlit/pages/control.py, with its threads as a step relation
--   Gcs/Cli            `consume_keys` of gcs/cli/cli.py
--   Backend/Swarm      `SwarmController` of backend/server/swarm_controller: the numbers of commands and
--                      the stream that waits for their responses
--   Runtime/Fsm        `MissionFSM` of runtime/fsm.py
--   Runtime/Session    `init` and `term` of runtime/__init__.py
--   Runtime/Store      `MissionStore` of sdk/src/steeleagle_sdk/api/mission_store.py
--   Runtime/Resources  `start` and `stop` of api/mission_store.py and what `init` and `term` open and close:
--                      connections and tasks by number. A call that is cancelled and a close that raises
--                      are left out
--   Runtime/Service    `MissionService`
-- Law/Samples and Dsl/Samples hold small inputs, and the Tests modules the theorems at them.
--
-- Concurrency: a method that holds a lock is one step, and what other tasks do in between is the order
-- of the steps, which every theorem on a sequence quantifies over. Which racers of a state finish, and
-- how, is a list of finishes in their order. Loops are recursion on what drives them (polls, messages,
-- calls, finishes), so there is no fuel, but for the loop of Map/Transects: there the fuel is one more than
-- the gap between its bounds in units, which Map/Transects/Ends shows to be enough.
--
-- Numbers: statuses, sequence numbers and times are native naturals, times in milliseconds. The floats
-- of the events and of the engines are integers of thousandths, those of the map of a unit that is a
-- parameter, which leaves the rounding of sums out. The great-circle formula and products, quotients and
-- cosines of coordinates are parameters.
--
-- Outside: sockets, the clock, Protobuf, gRPC, Pydantic, Lark, JSON, Redis, Shapely and the XML parser are
-- parameters or inputs. The sensors' streams, the image models of backend/server/engines, the drivers, the
-- drawing of maps and the widgets of the graphical user interfaces are not modelled.
pub mod Prelude
pub mod Law
pub mod Dsl
pub mod Runtime
pub mod Map
pub mod Sdk
pub mod Gcs
pub mod Vehicle
pub mod Backend
