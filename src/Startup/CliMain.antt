-- ===== src/Startup/CliMain.antt =====
-- `tinykv-cli` (src/cli_main.cpp): the arguments, the connection, and the loop that sends each line of
-- the input and prints the reply. The prompt and the banner are left out.
pub mod Replies
use tiny_kv_distributed_stor.Prelude.{
  ◌≡◌, refl, Bool, true, false, ◌||◌, Option, none, some, List, [], ◌∷◌, if◌then◌else◌,
}
use tiny_kv_distributed_stor.Prelude.Text.{Text, codes, text_eq}
use tiny_kv_distributed_stor.Prelude.Int.{ℤ, pos, negsuc}
use tiny_kv_distributed_stor.Prelude.Decimal.{stoi}
use tiny_kv_distributed_stor.Config.{Config, empty_config, load_from_file, get_int}
use tiny_kv_distributed_stor.Startup.ServerMain.{unless_unset}
use tiny_kv_distributed_stor.Net.TcpClient.{
  Socket, TcpClient, new_client, connect, send_line, receive_line,
}

pub record CliArgs : Type 0 where
  pub config_path : Text
  pub host : Text
  pub port : ℤ

abbrev pub default_cli_args : CliArgs
default_cli_args = record {
  config_path = codes "tinykv.conf";
  host = codes "127.0.0.1";
  port = negsuc 0;
}

pub data CliOption : Type 0 where
  config_option : CliOption
  port_option : CliOption
  host_option : CliOption
  no_option : CliOption

unfoldable pub cli_option_of : Text → CliOption
cli_option_of arg =
    if text_eq arg (codes "--config")
    then CliOption.config_option
    else if text_eq arg (codes "--port")
    then CliOption.port_option
    else if text_eq arg (codes "--host")
    then CliOption.host_option
    else CliOption.no_option

-- `none` where `std::stoi` throws, which ends the program.
unfoldable pub parse_cli_args_from : CliArgs → List Text → Option CliArgs
unfolding cli_option_of
parse_cli_args_from args [] = some args
parse_cli_args_from args (arg ∷ []) = some args
parse_cli_args_from args (arg ∷ value ∷ rest) = elim (cli_option_of arg) [
  | CliOption.config_option ↦ parse_cli_args_from (record args { config_path = value }) rest
  | CliOption.port_option ↦ elim (stoi value) [
    | none ↦ none
    | some n ↦ parse_cli_args_from (record args { port = n }) rest
  ]
  | CliOption.host_option ↦ parse_cli_args_from (record args { host = value }) rest
  | CliOption.no_option ↦ parse_cli_args_from args (value ∷ rest)
]

abbrev pub parse_cli_args : List Text → Option CliArgs
parse_cli_args arguments = parse_cli_args_from default_cli_args arguments

-- What the loop does with a line of the input.
pub data Input : Type 0 where
  quit : Input
  blank : Input
  command : Input

unfoldable pub input_of : Text → Input
input_of [] = Input.blank
input_of (c ∷ input) =
    if text_eq (c ∷ input) (codes "quit") || text_eq (c ∷ input) (codes "exit")
    then Input.quit
    else Input.command

pub data Ending : Type 0 where
  end_of_input : Ending
  quit_typed : Ending
  lost_while_sending : Ending
  lost_while_waiting : Ending

pub record Session : Type 0 where
  pub printed : List Text
  pub ending : Ending
  pub client : TcpClient

abbrev pub ended : Ending → TcpClient → Session
ended ending client = record { printed = []; ending = ending; client = client }

abbrev pub print_first : Text → Session → Session
print_first response s = record s { printed = response ∷ s.printed }

unfoldable pub repl : List Text → TcpClient → Session
unfolding input_of send_line receive_line
repl [] c = ended Ending.end_of_input c
repl (input ∷ inputs) c = elim (input_of input) [
  | Input.quit ↦ ended Ending.quit_typed c
  | Input.blank ↦ repl inputs c
  | Input.command ↦ elim (send_line input c).0 [
    | false ↦ ended Ending.lost_while_sending (send_line input c).1
    | true ↦ elim (receive_line (send_line input c).1).0 [
      | none ↦ ended Ending.lost_while_waiting (receive_line (send_line input c).1).1
      | some response ↦ print_first response (repl inputs (receive_line (send_line input c).1).1)
    ]
  ]
]

-- The exit code 1 comes before the loop.
pub data CliRun : Type 0 where
  bad_argument : CliRun
  not_connected : Text → ℤ → CliRun
  session : Session → CliRun

unfoldable pub connect_and_run : Text → ℤ → List Text → Bool × TcpClient → CliRun
unfolding repl
connect_and_run host port inputs (true, c) = CliRun.session (repl inputs c)
connect_and_run host port inputs (false, c) = CliRun.not_connected host port

-- `network` answers a connect to a host and a port.
unfoldable pub run_cli :
    (Text → ℤ → Option Socket) → (Text → Option Text) → List Text → List Text → CliRun
unfolding parse_cli_args_from load_from_file get_int connect connect_and_run
run_cli network files arguments inputs = elim (parse_cli_args arguments) [
  | none ↦ CliRun.bad_argument
  | some args ↦
      let config = (load_from_file (files args.config_path) empty_config).1 in
      let port = unless_unset args.port (get_int (codes "port") (pos 6380) config) in
      connect_and_run args.host port inputs (connect (network args.host port) new_client)
]
