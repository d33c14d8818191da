-- ===== src/Tests/Sessions.antt =====
-- internal/mcp/server.go at one session: a query, a SOAP call, and a file.
use fieldlink.Policy.{background}
use fieldlink.Config.{Config}
use fieldlink.Mcp.Session.{
  Libraries, Site, new_site, on_database, on_soap, on_file, handle, Run, begin, after,
}
use fieldlink.Tests.Queries.{one_table, two_rows}
use fieldlink.Tests.Devices.{silent}
use fieldlink.Tests.Services.{one_host, one_endpoint, one_node, get_stock, erp}
use fieldlink.Tests.Shares.{one_share, read_data}
use fieldlink.Tests.Network.{local_config}
use fieldlink.Tests.Stubs.Site.{site_deps, site_world, wide_world, site_engine}

abbrev libraries : Libraries
libraries = record {
  databases = one_table;
  modbus = silent;
  web = one_host;
  soap = one_endpoint;
  opcua = one_node;
  files = one_share;
  sort = λ es. es;
}

abbrev config : Config
config = record local_config { soap_endpoints = erp }

abbrev start : Site libraries
start = new_site libraries site_engine config

abbrev queried : Site libraries
queried = handle libraries site_deps site_world site_world background (on_database two_rows) start

abbrev called : Site libraries
called = handle libraries site_deps wide_world wide_world background (on_soap get_stock) queried

abbrev end : Site libraries
end = handle libraries site_deps wide_world wide_world background (on_file read_data) called

abbrev three_calls : Run libraries site_deps start end
three_calls =
    after called
      (after queried (after start begin site_world site_world background (on_database two_rows))
        wide_world wide_world background (on_soap get_stock))
      wide_world wide_world background (on_file read_data)
