-- ===== src/Tests/Services.antt =====
-- internal/exec/httpx, soap and device/opcua at one call each, behind the site's grant.
use fieldlink.Prelude.{
  if◌then◌else◌, ℕ, pos, codes, String, Bytes, true, false, List, [], ◌∷◌, some, none, ◌≡◌, ◌⊎◌,
  refl, arith, inl, inr, subst, eq_iff, Bool-cases, ◌==◌, concat,
}
use fieldlink.Prelude.Results.{err}
use fieldlink.Policy.{background}
use fieldlink.Policy.GrantEngine.{GrantEngine, grant_engine}
use fieldlink.Policy.GrantEngine.Soundness.{Authorized}
use fieldlink.Config.{SoapEndpoint, OpcuaEndpoint}
use fieldlink.Http.{Web, CallInternalHttpInput, call_internal_http, request_params, method_of}
use fieldlink.Http
use fieldlink.Http.Gate as HttpGate
use fieldlink.Http.Gate.{call_internal_http-Authorized}
use fieldlink.Soap
use fieldlink.Soap.{CallSoapInput, call_soap, soap_params, template_key}
use fieldlink.Soap.Gate as SoapGate
use fieldlink.Soap.Cache.{HasPlainNames, HasNoNul, IsCurrent}
use fieldlink.Soap.Gate.{call_soap-Authorized}
use fieldlink.Opcua
use fieldlink.Opcua.{
  DataValue, ReadOpcuaInput, ServerCall, read_opcua, parse_node_ids, opcua_params, read_nodes,
  panicked, collect,
}
use fieldlink.Opcua.Browse.{BrowseOpcuaInput, browse_opcua}
use fieldlink.Opcua.Gate.{browse_opcua-IsGuarded, IsGuarded}
use fieldlink.Opcua.Results.{read_nodes_lem}
use fieldlink.Tests.Stubs.Site.{site_deps, wide_world, site_engine}

-- A web with one host at one address.
abbrev pub one_host : Web
one_host = record {
  to_upper = λ s. s;
  parse_url = λ u. some (record { scheme = "http"; hostname = "plc"; port = "" });
  lookup_ip = λ host. some ((10 ∷ 0 ∷ 0 ∷ 5 ∷ []) ∷ []);
  ip_string = λ ip. "10.0.0.5";
  join_host_port = λ host port. concat host (concat ":" port);
  can_build = λ method url. true;
  exchange = λ r. some (record {
    status = pos 200;
    headers = [];
    body = record { arrived = codes "ok"; fails = false };
  });
  string_of = λ b. "text";
}

abbrev get_status : CallInternalHttpInput
get_status = record { url = "http://plc/status"; method = ""; headers = [] }

abbrev web_executor : Http.Executor GrantEngine
web_executor = record { policy = site_engine; requests = [] }

call_internal_http-Authorized_example :
    let r =
      call_internal_http one_host site_deps.matchers
        (grant_engine site_deps wide_world)
        background
        get_status
        web_executor in
    ((reason : String) × (r.0 ≡ err reason) × (r.1.requests ≡ []))
    ⊎ ((p : HttpGate.Passed one_host site_deps.matchers
          (grant_engine site_deps wide_world)
          background
          get_status
          web_executor)
        × (r.1.requests
            ≡ HttpGate.request_of one_host site_deps.matchers
                (grant_engine site_deps wide_world)
                background
                get_status
                web_executor
                p
              ∷ [])
        × HttpGate.IsBounded r.0
        × Authorized site_deps wide_world site_engine "http.request"
            (request_params one_host p.ip (method_of one_host "")))
call_internal_http-Authorized_example =
    call_internal_http-Authorized one_host site_deps.matchers site_deps wide_world background
      get_status web_executor

-- A SOAP endpoint that answers every envelope.
abbrev pub one_endpoint : Soap.Services
one_endpoint = record {
  Template = Bytes;
  parse = λ name raw. some (codes raw);
  execute = λ t params. some t;
  escape_text = λ s. some s;
  getenv = λ name. "secret";
  can_build = λ url. true;
  redirected =
      λ r. if r.url == "http://erp/soap" then record r { url = "http://erp2/soap" } ∷ [] else [];
  exchange = λ r. some (record {
    status = pos 200;
    headers = [];
    body = record { arrived = codes "<ok/>"; fails = false };
  });
}

abbrev pub erp : List (String × SoapEndpoint)
erp =
    (
      "erp",
      record {
        url = "http://erp/soap";
        timeout = pos 0;
        username_env = "";
        password_env = "";
        operations = ("stock", record { soap_action = ""; template = "<stock/>" }) ∷ [];
      },
    )
    ∷ []

abbrev soap_executor : Soap.Executor one_endpoint GrantEngine
soap_executor = record { policy = site_engine; endpoints = erp; templates = []; requests = [] }

abbrev pub get_stock : CallSoapInput
get_stock = record { endpoint = "erp"; operation = "stock"; params = [] }

pub erp-HasPlainNames : HasPlainNames one_endpoint erp
erp-HasPlainNames name ep found = elim (Bool-cases ("erp" == name)) [
  | inl h ↦
      subst HasNoNul ((eq_iff "erp" name).0 h) (ground arith, (ground arith, (ground arith, tt)))
  | inr h ↦ absurd (cc (rw h at found))
]

call_soap-Authorized_example :
    let r =
      call_soap one_endpoint
        (grant_engine site_deps wide_world)
        background
        get_stock
        soap_executor in
    IsCurrent one_endpoint erp r.1.templates
    × (((reason : String) × (r.0 ≡ err reason) × (r.1.requests ≡ []))
        ⊎ ((p : SoapGate.Passed one_endpoint
              (grant_engine site_deps wide_world)
              background
              get_stock
              soap_executor)
            × (r.1.requests
                ≡ SoapGate.requests_of one_endpoint
                    (grant_engine site_deps wide_world)
                    background
                    get_stock
                    soap_executor
                    p)
            × SoapGate.IsBounded r.0
            × Authorized site_deps wide_world site_engine "soap.call" (soap_params get_stock)))
call_soap-Authorized_example =
    call_soap-Authorized one_endpoint site_deps wide_world background get_stock soap_executor
      erp-HasPlainNames (λ endpoint operation ep op t found defined cached. absurd (cc (cached)))

abbrev answer : DataValue ℕ Unit
answer = record { status = 0; value = some 5; source_timestamp = tt }

-- An OPC UA endpoint with one node, whose server answers a read with two values.
abbrev pub one_node : Opcua.Clients
one_node = record {
  Client = Unit;
  NodeId = String;
  Value = ℕ;
  Time = Unit;
  parse_node_id = some;
  getenv = λ name. name;
  connect = λ url auth. some tt;
  read = λ c ids. some (answer ∷ answer ∷ []);
  references = λ c id.
      some (("ns=2;s=Boiler.T", some "T", "Variable") ∷ ("ns=2;s=Door", none, "Object") ∷ []);
  status_error = λ status. "bad";
  is_zero = λ t. true;
  rfc3339 = λ t. "t1";
}

abbrev line : List (String × OpcuaEndpoint)
line =
    (
      "line",
      record {
        url = "opc.tcp://plc";
        auth = "";
        username_env = "";
        password_env = "";
        timeout = pos 0;
      },
    )
    ∷ []

abbrev opcua_executor : Opcua.Executor one_node GrantEngine
opcua_executor = record { policy = site_engine; endpoints = line; conns = []; calls = [] }

abbrev read_boiler : ReadOpcuaInput
read_boiler = record { endpoint = "line"; node_ids = "ns=2;s=Boiler.T" ∷ [] }

abbrev browse_boiler : BrowseOpcuaInput
browse_boiler = record { endpoint = "line"; node_id = "ns=2;s=Boiler" }

browse_opcua-IsGuarded_example :
    IsGuarded one_node site_deps wide_world wide_world background browse_boiler opcua_executor (
      browse_opcua one_node
        (grant_engine site_deps wide_world)
        (grant_engine site_deps wide_world)
        background
        browse_boiler
        opcua_executor)
browse_opcua-IsGuarded_example =
    browse_opcua-IsGuarded one_node site_deps wide_world wide_world background browse_boiler
      opcua_executor

read_nodes_lem_example :
    (read_nodes one_node read_boiler ("ns=2;s=Boiler.T" ∷ []) tt opcua_executor).0 ≡ panicked
read_nodes_lem_example =
    read_nodes_lem one_node read_boiler ("ns=2;s=Boiler.T" ∷ []) tt opcua_executor
      (answer ∷ answer ∷ []) refl
