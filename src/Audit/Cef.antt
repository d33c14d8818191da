-- ===== src/Audit/Cef.antt =====
-- internal/audit/cef.go: the export in Common Event Format, on the code points of the fields.
pub mod Escaping
use fieldlink.Prelude.{
  ℕ, ◌+◌, ℤ, String, Bytes, codes, flatten, Bool, List, [], ◌∷◌, ◌++◌, Option, none, some, nat_eq,
  ◌==◌, if◌then◌else◌, true, false,
}
use fieldlink.Prelude.Results.{Result, ok, err}
use fieldlink.Prelude.Lines.{scan_lines}
use fieldlink.Audit.{
  Record, Formats, Opened, missing, unreadable, present, max_line, LogError, cannot_read,
  cannot_scan,
}

-- strings.NewReplacer(`\`, `\\`, `=`, `\=`, "\n", `\n`)
unfoldable pub cef_escape : Bytes → Bytes
cef_escape [] = []
cef_escape (c ∷ s) =
    let rest = cef_escape s in
    if nat_eq c b'\\'
    then b'\\' ∷ b'\\' ∷ rest
    else if nat_eq c b'='
    then b'\\' ∷ b'=' ∷ rest
    else if nat_eq c b'\n'
    then b'\\' ∷ b'n' ∷ rest
    else c ∷ rest

-- strings.NewReplacer(`\`, `\\`, `|`, `\|`)
unfoldable pub cef_escape_header : Bytes → Bytes
cef_escape_header [] = []
cef_escape_header (c ∷ s) =
    let rest = cef_escape_header s in
    if nat_eq c b'\\'
    then b'\\' ∷ b'\\' ∷ rest
    else if nat_eq c b'|'
    then b'\\' ∷ b'|' ∷ rest
    else c ∷ rest

-- The extension: key=value pairs, in order; `decimal` is fmt's %d.
cef_extension : (ℤ → Bytes) → Record → List Bytes
cef_extension decimal rec =
    codes "rt="
    ∷ codes rec.ts
    ∷ codes " suser="
    ∷ cef_escape (codes rec.agent_id)
    ∷ codes " cs1Label=grantId cs1="
    ∷ cef_escape (codes rec.grant_id)
    ∷ codes " cs2Label=sessionId cs2="
    ∷ cef_escape (codes rec.session_id)
    ∷ codes " cs3Label=paramsDigest cs3="
    ∷ cef_escape (codes rec.params_digest)
    ∷ codes " cs4Label=callerId cs4="
    ∷ cef_escape (codes rec.caller_id)
    ∷ codes " outcome="
    ∷ cef_escape (codes rec.decision)
    ∷ codes " reason="
    ∷ cef_escape (codes rec.reason)
    ∷ codes " cnt="
    ∷ decimal rec.seq
    ∷ []

severity : Record → Bytes
severity rec = if rec.decision == "deny" then codes "6" else codes "3"

-- The header, and the extension behind it.
cef_parts : (ℤ → Bytes) → Record → List Bytes
unfolding cef_extension severity
cef_parts decimal rec =
    codes "CEF:0|FieldLink|fieldlink|0.1.0-dev|"
    ∷ cef_escape_header (codes rec.capability)
    ∷ codes "|"
    ∷ cef_escape_header (codes rec.capability)
    ∷ codes " "
    ∷ cef_escape_header (codes rec.decision)
    ∷ codes "|"
    ∷ severity rec
    ∷ codes "|"
    ∷ cef_extension decimal rec

-- recordToCEF
unfoldable pub record_to_cef : (ℤ → Bytes) → Record → Bytes
unfolding cef_parts
record_to_cef decimal rec = flatten (cef_parts decimal rec)

-- ExportCEF's loop: what is written before an error stays written.
export_lines : Formats → (ℤ → Bytes) → List Bytes → Bool → Bytes × Bool
export_lines lib decimal [] failed = ([], failed)
export_lines lib decimal (l ∷ ls) failed =
    let rest = export_lines lib decimal ls failed in
    elim (lib.unmarshal l) [
      | none ↦ ([], true)
      | some rec ↦ (record_to_cef decimal rec ++ (b'\n' ∷ rest.0), rest.1)
    ]

-- ExportCEF: what it writes to a writer that does not fail, and whether it returns an error.
unfoldable pub export_cef : Formats → (ℤ → Bytes) → Opened → Bytes × Bool
unfolding export_lines
export_cef lib decimal missing = ([], false)
export_cef lib decimal unreadable = ([], true)
export_cef lib decimal (present text) =
    let scanned = scan_lines max_line text in export_lines lib decimal scanned.0 scanned.1
