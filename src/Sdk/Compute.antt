-- ===== src/Sdk/Compute.antt =====
-- sdk/src/steeleagle_sdk/api/compute.py: the class Compute over the channel.
use steeleagle.Prelude.{String, Option, List, [], ◌∷◌, attribute_error, Result, ok, err, ◌>>=◌}
use steeleagle.Law.Kernel.{Response}
use steeleagle.Vehicle.Sinks.{Datasink}
use steeleagle.Runtime.Store.{Row, Codec, Model, get_latest}
use steeleagle.Sdk.Calls.{
  Request, add_datasinks_request, set_datasinks_request, remove_datasinks_request, Channel, Log,
  Method, run_unary,
}
use steeleagle.Sdk.Vehicle.{Returned}

unfoldable pub get_result : (codec : Codec) → String → List Row → Option (Model codec)
unfolding get_latest
get_result codec topic rows = get_latest codec "results" topic rows

-- An element of the argument: a DatasinkInfo, or the dict that one was dumped to.
pub data Element : Type 0 where
  info dumped : Datasink → Element

unfoldable pub compute_method : String → Method
compute_method name = record {
  service = "steeleagle.protocol.services.compute_service.Compute";
  name = name;
}

-- The loop that fills `req.datasinks`; a dict has no `model_dump`.
unfoldable pub parse_datasinks : List Element → Result (List Datasink)
parse_datasinks [] = ok []
parse_datasinks (info d ∷ es) =
    let rest = parse_datasinks es in rest >>= (λ (ds : List Datasink). ok (d ∷ ds))
parse_datasinks (dumped d ∷ es) = err attribute_error

-- The body that the three methods share.
unfoldable pub send_datasinks :
    Channel → String → (List Datasink → Request) → List Element → Log → Returned Response
unfolding parse_datasinks run_unary compute_method
send_datasinks c name request es log = elim (parse_datasinks es) [
  | err e ↦ (err e, log)
  | ok ds ↦ run_unary c (compute_method name) (request ds) log
]

module _ (c : Channel) where
  unfoldable pub add_datasinks : List Element → Log → Returned Response
  unfolding send_datasinks
  add_datasinks es log = send_datasinks c "AddDatasinks" add_datasinks_request es log

  unfoldable pub set_datasinks : List Element → Log → Returned Response
  unfolding send_datasinks
  set_datasinks es log = send_datasinks c "SetDatasinks" set_datasinks_request es log

  unfoldable pub remove_datasinks : List Element → Log → Returned Response
  unfolding send_datasinks
  remove_datasinks es log = send_datasinks c "RemoveDatasinks" remove_datasinks_request es log
