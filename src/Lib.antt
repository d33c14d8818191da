-- ===== src/Lib.antt =====
-- FieldLink is an agent on an industrial site that gives an AI model narrow, read-only access to
-- files, devices, databases and services. What it may do is written in a grant, a document that
-- is signed offline; each tool call is authorized against the grant, read and verified anew, and
-- each decision is appended to a hash-chained audit log.
--
-- Parts, and the files that model them (paths from the repository's root):
--   Grant: internal/grant/grant.go (ParseYAML, Find, Validate, Sign, Verify).
--   Grant/Keys: internal/grant/keys.go, the key and signature files over a disk (Prelude/Disk).
--   Audit: internal/audit/audit.go (Open, Append, ParamsDigest, hashRecord); Audit/Verify:
--     verify.go (Verify); Audit/Cef: cef.go (ExportCEF). Audit/Session runs Open and Append in
--     any order, Audit/Tampering compares two accepted logs.
--   Policy: internal/policy/policy.go (Engine, Decision, the caller in a context);
--     Policy/Constraints and Policy/GrantEngine: grant_engine.go and grant_io.go. Authorize is
--     load, the lookup, the switch over capabilities, and Append on the chain that it holds.
--   Db/Statement: internal/exec/db/sqlguard.go (ValidateStatement); Db/Query: executor.go, the
--     tool query_database, which asks the statement guard and then the policy engine; Db/Schema:
--     schema.go.
--   Http: internal/exec/httpx (the tool call_internal_http); Soap: internal/exec/soap (call_soap and
--     its cache of templates); Opcua: internal/exec/device/opcua (read_opcua, browse_opcua).
--   Files: internal/exec/fs/fs.go and smb.go (read_file, list_directory). Files/SmbPath is
--     parseSMBPath, Files/Walk the listing, Files/Smb the shares and the choice between the two.
--   Modbus/Decode, Modbus/Read: internal/exec/device/modbus/decode.go and executor.go, the tool
--     read_modbus; Modbus/Simulator: internal/simulator/simulator.go, the device of the demo.
--   Config: internal/config/config.go (the settings, Load, LoadFaultTable).
--   Mcp/Oauth: internal/mcp/oauth.go (splitScopes, the check of an access token), and joinScopes of
--     local_issuer.go; Mcp/Issuer: the rest of local_issuer.go, the token endpoint and its key.
--   Mcp/Transport: internal/mcp/http.go (RunHTTP until it listens, and what its guards let through).
--   Mcp/Server, Mcp/Resources: internal/mcp/server.go and resources.go (what is offered, by the
--     grant at the start, and what the resources hold). Mcp/Session: the executors that New makes
--     over one engine, and sessions of calls as a relation of sites.
--   Cli: cmd/fieldlink/grant.go (the commands grant sign and grant verify); Cli/Serve: serve.go, from
--     the settings to the options of RunHTTP.
--   Any: Go's `any` and `map[string]any`. Tests: the theorems at concrete inputs.
--
-- State is passed explicitly: a Chain is a record with the file's contents, an engine a record
-- with its chain and the last fingerprint, the disk a function from paths. A mutex makes an
-- operation one step. Times are nanoseconds since Go's zero time, an int64 that is incremented
-- wraps, and a difference of times saturates as time.Time.Sub does.
--
-- Parameters stand for the code that is not the program's own: YAML, JSON and RFC 8785, SHA-256,
-- Ed25519, base64, glob matching, the address functions of net, databases, the clients of Modbus,
-- OPC UA, SMB and HTTP, templates, JWT and the arithmetic of floats. An executor's record also lists
-- what it has sent or set out to read, so that a theorem can say what a call lets out; for SOAP this
-- includes what http.DefaultClient sends on when it is redirected. The theorems
-- that need a law of a parameter name it (IsCodec, IsSelfDelimiting, IsBase64, IsSigner, HasChecked,
-- KeepsNames),
-- and Tests has instances.
--
-- Bounds: a bufio.Scanner holds lines shorter than 2^16 bytes in a key file and shorter than 2^20
-- in the log. The stripping of a statement runs on fuel, one more than the statement's length;
-- each round consumes a character, so this is enough. A walk of a directory goes down one level on
-- each unit of fuel, and the height of the tree below it is enough.
--
-- Not modelled: the simulator's listener and timer, the listener of HTTP and its shutdown, the JSON of
-- the resources, the prompts and descriptions, which are texts for the model, and what the commands
-- print. The file systems do not change during a call.
pub mod Prelude
pub mod Any
pub mod Grant
pub mod Audit
pub mod Policy
pub mod Soap
pub mod Opcua
pub mod Files
pub mod Config
pub mod Db
pub mod Modbus
pub mod Http
pub mod Cli
pub mod Mcp
pub mod Tests
