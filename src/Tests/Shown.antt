-- ===== src/Tests/Shown.antt =====
-- internal/mcp/resources.go at a site with one device.
use fieldlink.Prelude.{pos, [], ◌∷◌}
use fieldlink.Config.{Config, Device}
use fieldlink.Modbus.Read.{ReadModbusInput}
use fieldlink.Tests.Network.{local_config}

abbrev boiler : Device
boiler = record {
  protocol = "modbus-tcp";
  address = "10.0.0.5:502";
  unit_id = 1;
  timeout = pos 0;
  registers =
      (
        "temp",
        record {
          fc = pos 3;
          address = 0;
          type_name = "uint16";
          word_order = "";
          scale = 1;
          unit = "C";
          range = [];
          lookup_file = "";
        },
      )
      ∷ [];
}

abbrev with_boiler : Config
with_boiler = record local_config { devices = ("boiler", boiler) ∷ [] }

abbrev read_temp : ReadModbusInput
read_temp = record { device = "boiler"; register = "temp" }
