-- ===== src/Tests/Devices.antt =====
-- internal/exec/device/modbus, internal/simulator and internal/config at concrete values.
use fieldlink.Prelude.{
  ℕ, ◌*◌, pos, codes, leb, nat_eq, true, false, List, [], ◌∷◌, some, none, replicate, ◌⊎◌, ◌≡◌,
  refl, arith, pos_part,
}
use fieldlink.Prelude.Results.{ok}
use fieldlink.Prelude.Disk.{Disk}
use fieldlink.Config
use fieldlink.Config.{Config, Device, Register}
use fieldlink.Modbus.Decode.{Floats, decode_numeric, encode_uint32, encode_float32}
use fieldlink.Modbus.Decode.RoundTrip.{words, decode_numeric-encode_uint32}
use fieldlink.Policy.{background}
use fieldlink.Policy.GrantEngine.{GrantEngine, grant_engine}
use fieldlink.Policy.GrantEngine.Soundness.{Authorized}
use fieldlink.Modbus.Read.{
  Clients, ReadModbusInput, Executor, read_modbus, read_params, read, client_for, dial, transact,
  reset, read_number, reg_type,
}
use fieldlink.Modbus.Decode.{word_count}
use fieldlink.Modbus.Read.Gate.{read_modbus-Authorized, client_for-read}
use fieldlink.Tests.Stubs.Site.{site_deps, site_world, site_engine}

-- Floats whose bit pattern is a whole number.
abbrev whole_floats : Floats
whole_floats = record {
  of_integer = pos_part;
  of_float32 = λ bits. bits;
  times = λ x y. x * y;
  is_zero = λ x. nat_eq x 0;
  at_most = leb;
  one = 1;
}

abbrev value : ℕ
value = 0x41200001

decode_numeric-encode_uint32_example :
    (decode_numeric whole_floats "uint32" (words (encode_uint32 value true)) true 0 ≡ ok value)
    × (decode_numeric whole_floats "int32" (words (encode_uint32 value true)) true 0 ≡ ok value)
    × (decode_numeric whole_floats "float32" (words (encode_float32 value true)) true 0 ≡ ok value)
decode_numeric-encode_uint32_example =
    decode_numeric-encode_uint32 whole_floats value true 0 (omega arith)

abbrev zero_bank : List ℕ
zero_bank = replicate 64 0

abbrev file_config : Config
file_config = record {
  agent_id = "plant-1";
  server = record {
    transport = "http";
    http = record {
      bind = "";
      allowed_origins = [];
      bearer_token_env = "";
      tls = none;
      oauth = none;
      local_issuer = none;
    };
  };
  grant = record { path = "grant.yaml"; trusted_key = "key.pub" };
  audit = record { path = "audit.log"; rotate_mb = pos 0 };
  devices = [];
  datasources = [];
  opcua_endpoints = [];
  smb_shares = [];
  soap_endpoints = [];
  config_dir = "";
}

abbrev one_file : Config.Formats
one_file = record {
  unmarshal_config = λ text. some file_config;
  unmarshal_table = λ text. some [];
  abs = λ path. some path;
  dir = λ path. "/etc/fieldlink";
  is_abs = λ path. false;
  join = λ dir file. file;
}

abbrev config_disk : Disk
config_disk = record { contents = λ path. some (codes "config"); writable = λ path. false }

abbrev ready_config : Config
ready_config = record file_config {
  server = record file_config.server {
    http = record file_config.server.http { bind = "127.0.0.1:8765" };
  };
  config_dir = "/etc/fieldlink";
}

abbrev temp_register : Register
temp_register = record {
  fc = pos 3;
  address = 20;
  type_name = "float32";
  word_order = "swapped";
  scale = 0;
  unit = "C";
  range = [];
  lookup_file = "";
}

abbrev boiler : Device
boiler = record {
  protocol = "modbus-tcp";
  address = "10.0.0.9:502";
  unit_id = 1;
  timeout = pos 0;
  registers = ("temp", temp_register) ∷ [];
}

-- Devices that connect and do not answer a read.
abbrev pub silent : Clients
silent = record {
  Client = Unit;
  connect = λ url timeout. some tt;
  set_unit_id = λ c id. true;
  read_coil = λ c address. none;
  read_discrete_input = λ c address. none;
  read_registers = λ c address quantity t. none;
  now = "t1";
  floats = whole_floats;
}

abbrev boiler_temp : ReadModbusInput
boiler_temp = record { device = "boiler"; register = "temp" }

abbrev executor : Executor silent GrantEngine
executor = record {
  policy = site_engine;
  devices = ("boiler", boiler) ∷ [];
  conns = [];
  reads = [];
}

read_modbus-Authorized_example :
    ((read_modbus silent
        (grant_engine site_deps site_world)
        background
        boiler_temp
        executor).1.reads
      ≡ [])
    ⊎ (((read_modbus silent
            (grant_engine site_deps site_world)
            background
            boiler_temp
            executor).1.reads
          ≡ boiler_temp ∷ [])
        × Authorized site_deps site_world site_engine "device.modbus.read"
            (read_params boiler_temp))
read_modbus-Authorized_example =
    read_modbus-Authorized silent site_deps site_world background boiler_temp executor

no_answer : transact silent tt boiler temp_register ≡ reset
unfolding transact read_number word_count reg_type
no_answer = refl

dialled : client_for silent [] boiler ≡ some tt
unfolding client_for dial
dialled = refl

client_for-read_example :
    ((read silent boiler temp_register []).0 ≡ none)
    × (client_for silent (read silent boiler temp_register []).1 boiler ≡ dial silent boiler)
client_for-read_example = client_for-read silent boiler temp_register [] tt dialled no_answer
