-- ===== src/Startup/RouterMain.antt =====
-- The arguments, settings and topology of `tinykv-router` (src/router_main.cpp).
use tiny_kv_distributed_stor.Prelude.{
  ◌≡◌, refl, Bool, true, false, Option, none, some, List, [], ◌∷◌, if◌then◌else◌,
}
use tiny_kv_distributed_stor.Prelude.Text.{Text, codes, text_eq}
use tiny_kv_distributed_stor.Prelude.Int.{ℤ, pos, negsuc}
use tiny_kv_distributed_stor.Prelude.Decimal.{stoi}
use tiny_kv_distributed_stor.Config.{Config, empty_config, load_from_file, get_string, get_int}
use tiny_kv_distributed_stor.Startup.ServerMain.{unless_unset}
use tiny_kv_distributed_stor.Sharding.Topology.{ShardTopology, parse_shards, shard_ids}

pub record RouterArgs : Type 0 where
  pub config_path : Text
  pub port : ℤ

abbrev pub default_router_args : RouterArgs
default_router_args = record { config_path = codes "router.conf"; port = negsuc 0 }

pub data RouterOption : Type 0 where
  config_option : RouterOption
  port_option : RouterOption
  no_option : RouterOption

unfoldable pub router_option_of : Text → RouterOption
router_option_of arg =
    if text_eq arg (codes "--config")
    then RouterOption.config_option
    else if text_eq arg (codes "--port")
    then RouterOption.port_option
    else RouterOption.no_option

unfoldable pub parse_router_args_from : RouterArgs → List Text → Option RouterArgs
unfolding router_option_of
parse_router_args_from args [] = some args
parse_router_args_from args (arg ∷ []) = some args
parse_router_args_from args (arg ∷ value ∷ rest) = elim (router_option_of arg) [
  | RouterOption.config_option ↦ parse_router_args_from (record args { config_path = value }) rest
  | RouterOption.port_option ↦ elim (stoi value) [
    | none ↦ none
    | some n ↦ parse_router_args_from (record args { port = n }) rest
  ]
  | RouterOption.no_option ↦ parse_router_args_from args (value ∷ rest)
]

abbrev pub parse_router_args : List Text → Option RouterArgs
parse_router_args arguments = parse_router_args_from default_router_args arguments

pub record RouterSettings : Type 0 where
  pub port : ℤ
  pub topology_path : Text
  pub health_check_interval_ms : ℤ
  pub max_missed_pings : ℤ

unfoldable pub router_settings_of : RouterArgs → Config → RouterSettings
unfolding get_int get_string
router_settings_of args config = record {
  port = unless_unset args.port (get_int (codes "port") (pos 7000) config);
  topology_path = get_string (codes "topology_file") (codes "topology.conf") config;
  health_check_interval_ms = get_int (codes "health_check_interval_ms") (pos 1000) config;
  max_missed_pings = get_int (codes "max_missed_pings") (pos 3) config;
}

-- The exits of `main` before the router runs.
pub data RouterStart : Type 0 where
  bad_argument : RouterStart
  no_topology_file : Text → RouterStart
  no_shards : RouterStart
  routing : RouterSettings → ShardTopology → RouterStart

unfoldable pub with_topology : RouterSettings → ShardTopology → RouterStart
unfolding shard_ids
with_topology settings topology = elim (shard_ids topology) [
  | [] ↦ RouterStart.no_shards
  | shard_id ∷ rest ↦ RouterStart.routing settings topology
]

unfoldable pub load_topology : RouterSettings → Bool × Config → RouterStart
unfolding with_topology parse_shards get_string
load_topology settings (true, config) =
    with_topology settings (parse_shards (λ key. get_string key [] config))
load_topology settings (false, config) = RouterStart.no_topology_file settings.topology_path

unfoldable pub start_with_settings : (Text → Option Text) → RouterSettings → RouterStart
unfolding load_topology load_from_file
start_with_settings files settings =
    load_topology settings (load_from_file (files settings.topology_path) empty_config)

-- `files` is the content of the files that can be read.
unfoldable pub start_router : (Text → Option Text) → List Text → RouterStart
unfolding parse_router_args_from router_settings_of start_with_settings load_from_file
start_router files arguments = elim (parse_router_args arguments) [
  | none ↦ RouterStart.bad_argument
  | some args ↦
      start_with_settings files
        (router_settings_of args (load_from_file (files args.config_path) empty_config).1)
]

abbrev ids_of : RouterStart → List Text
ids_of RouterStart.bad_argument = []
ids_of (RouterStart.no_topology_file path) = []
ids_of RouterStart.no_shards = []
ids_of (RouterStart.routing settings topology) = shard_ids topology

start_router_test :
    ids_of (start_router (λ path. some (codes "shards = s1,s2\ns1.primary = 127.0.0.1:1\n")) [])
    ≡ codes "s1" ∷ codes "s2" ∷ []
unfolding start_router text_eq get_string
start_router_test = refl
