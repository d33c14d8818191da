-- ===== src/Audit.antt =====
-- internal/audit/audit.go: the append-only, hash-chained log of decisions.
-- A record's strings are kept as texts; JSON, RFC 8785, SHA-256 with hex, and the bytes of a
-- string are parameters. The mutex makes each operation one step.
pub mod Verify
pub mod Session
pub mod Tampering
pub mod Cef
use fieldlink.Prelude.{
  ℕ, ◌+◌, ◌-◌, ◌^◌, ℤ, pos, negsuc, ◌+ℤ◌, eq_ℤ, String, Bytes, Bool, true, false, not, List, [],
  ◌∷◌, ◌++◌, Option, none, some, take, concat, if◌then◌else◌,
}
use fieldlink.Prelude.Results.{Result, ok, err, or_fail, ◌>>=◌}
use fieldlink.Prelude.Lines.{scan_lines}
use fieldlink.Any.{Map}

pub record Record : Type 0 where
  pub seq : ℤ
  pub ts : String
  pub agent_id : String
  pub grant_id : String
  pub caller_id : String
  pub session_id : String
  pub capability : String
  pub decision : String
  pub reason : String
  pub params_digest : String
  pub prev_hash : String
  pub hash : String

-- encoding/json at Record, gowebpki/jcs, hex.EncodeToString(sha256.Sum256(b)), []byte(s); and
-- json.Marshal of a call's parameters.
pub record Formats : Type 0 where
  pub marshal : Record → Option Bytes
  pub unmarshal : Bytes → Option Record
  pub marshal_params : Map → Option Bytes
  pub canonicalize : Bytes → Option Bytes
  pub sha256_hex : Bytes → String
  pub bytes_of : String → Bytes

-- The open file is its contents; the session id is the random one that Open drew.
pub record Chain : Type 0 where
  pub file : Bytes
  pub agent_id : String
  pub session_id : String
  pub seq : ℤ
  pub prev_hash : String

-- `n++` on an int64
unfoldable pub increment : ℤ → ℤ
increment n = if eq_ℤ n (pos (2 ^ 63 - 1)) then negsuc (2 ^ 63 - 1) else n +ℤ pos 1

-- hashRecord; `none` is an error
unfoldable pub hash_record : Formats → Record → Option String
hash_record lib rec = elim (lib.marshal (record rec { hash = "" })) [
  | none ↦ none
  | some b ↦ elim (lib.canonicalize b) [
    | none ↦ none
    | some canonical ↦
        some (concat "sha256:" (lib.sha256_hex (canonical ++ lib.bytes_of rec.prev_hash)))
  ]
]

-- What the operating system does with a write: all of it, or an error after some bytes.
pub data Written : Type 0 where
  whole : Written
  failed_after : ℕ → Written

-- The arguments of Append, with the time that it reads.
pub record Entry : Type 0 where
  pub grant_id : String
  pub caller_id : String
  pub capability : String
  pub decision : String
  pub reason : String
  pub params_digest : String
  pub ts : String

unfoldable pub next_record : Chain → Entry → Record
next_record c e = record {
  seq = increment c.seq;
  ts = e.ts;
  agent_id = c.agent_id;
  grant_id = e.grant_id;
  caller_id = e.caller_id;
  session_id = c.session_id;
  capability = e.capability;
  decision = e.decision;
  reason = e.reason;
  params_digest = e.params_digest;
  prev_hash = c.prev_hash;
  hash = "";
}

abbrev pub line_of : Bytes → Bytes
line_of line = line ++ (b'\n' ∷ [])

-- The write, and the new prev_hash where it succeeds.
write_line : Written → Bytes → String → Chain → Chain × Bool
write_line (failed_after n) line hash c =
    (record c { file = c.file ++ take n (line_of line) }, false)
write_line whole line hash c = (record c { file = c.file ++ line_of line; prev_hash = hash }, true)

-- Append: the chain after the call, and whether the error is nil. The counter has moved on when a
-- later step fails.
unfoldable pub append : Formats → Written → Entry → Chain → Chain × Bool
unfolding next_record write_line
append lib written e c =
    let rec = next_record c e in
    let counted = record c { seq = increment c.seq } in
    elim (hash_record lib rec) [
      | none ↦ (counted, false)
      | some hash ↦ elim (lib.marshal (record rec { hash = hash })) [
        | none ↦ (counted, false)
        | some line ↦ write_line written line hash counted
      ]
    ]

-- The buffer that Verify, lastRecord and ExportCEF give their scanners.
abbrev pub max_line : ℕ
max_line = 2 ^ 20

-- What os.Open meets.
pub data Opened : Type 0 where
  missing : Opened
  unreadable : Opened
  present : Bytes → Opened

pub data LogError : Type 0 where
  cannot_read cannot_scan cannot_hash cannot_open no_session_id : LogError

-- lastRecord's loop: lines that are no record are skipped.
last_of : Formats → List Bytes → Option Record → Option Record
last_of lib [] last = last
last_of lib (l ∷ ls) last =
    last_of lib ls (elim (lib.unmarshal l) [ none ↦ last | some r ↦ some r ])

unfoldable pub last_record : Formats → Opened → Result LogError (Option Record)
unfolding last_of
last_record lib missing = ok none
last_record lib unreadable = err cannot_read
last_record lib (present text) =
    let scanned = scan_lines max_line text in
    if scanned.1 then err cannot_scan else ok (last_of lib scanned.0 none)

abbrev text_of : Opened → Bytes
text_of (present text) = text
text_of _ = []

-- The Chain that Open makes.
abbrev pub chain_from : Opened → String → String → Option Record → Chain
chain_from opened agent_id session_id none = record {
  file = text_of opened;
  agent_id = agent_id;
  session_id = session_id;
  seq = pos 0;
  prev_hash = "";
}
chain_from opened agent_id session_id (some r) = record {
  file = text_of opened;
  agent_id = agent_id;
  session_id = session_id;
  seq = r.seq;
  prev_hash = r.hash;
}

-- Open: the chain goes on from the last record. Whether the file can be opened for writing, and the
-- session id that is drawn, `none` being an error of the generator, come from outside.
unfoldable pub open_chain :
    Formats
    → Opened
    → (agent_id : String) (writable : Bool) (drawn : Option String) → Result LogError Chain
unfolding last_record
open_chain lib opened agent_id writable drawn = elim (last_record lib opened) [
  | err e ↦ err e
  | ok last ↦ if not writable then err cannot_open else elim drawn [
    | none ↦ err no_session_id
    | some session_id ↦ ok (chain_from opened agent_id session_id last)
  ]
]

-- ParamsDigest
unfoldable pub params_digest : Formats → Map → String
params_digest lib params = elim (lib.marshal_params params) [
  | none ↦ "sha256:unavailable"
  | some b ↦
      concat "sha256:"
        (lib.sha256_hex (elim (lib.canonicalize b) [ none ↦ b | some canonical ↦ canonical ]))
]
