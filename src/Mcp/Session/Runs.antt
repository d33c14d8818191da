-- ===== src/Mcp/Session/Runs.antt =====
-- Over a whole session nothing leaves the site that a grant has not permitted.
use fieldlink.Prelude.{All, ◌≡◌, ◌⊎◌}
use fieldlink.Policy.GrantEngine.{Deps, World, GrantEngine}
use fieldlink.Config.{Config}
use fieldlink.Db.Query
use fieldlink.Opcua
use fieldlink.Mcp.Session.{Libraries, Site, ToolCall, Run, begin, after}
use fieldlink.Mcp.Session.Earned.{
  IsEarnedQuery, IsEarnedRead, IsEarnedRequest, IsEarnedSoap, IsEarnedCall, IsEarnedTarget,
}

module _ (lib : Libraries) (deps : Deps) (Made : World → GrantEngine → ToolCall → Type 0) where
  -- All that the executors have sent, and all that they have set out to look at, is earned.
  abbrev pub IsEarnedSite : Site lib → Type 0
  IsEarnedSite s =
      All (IsEarnedQuery lib deps Made) s.databases.sent
      × All (IsEarnedRead lib deps Made) s.modbus.reads
      × All (IsEarnedRequest lib deps Made) s.web.requests
      × IsEarnedSoap lib deps Made s.soap
      × All (IsEarnedCall lib deps Made) s.opcua.calls
      × All (IsEarnedTarget lib deps Made) s.files.targets

-- The calls of a session: the call has been made in this world, where the site's policy engine was in
-- this state.
abbrev pub IsMade :
    (lib : Libraries) (deps : Deps) (s s' : Site lib)
    → Run lib deps s s'
    → World
    → GrantEngine
    → ToolCall
    → Type 0
IsMade lib deps s s' begin w e c = ⊥
IsMade lib deps s s' (after before run w' later ctx c') w e c =
    ((w' ≡ w) × (before.policy ≡ e) × (c' ≡ c)) ⊎ IsMade lib deps s before run w e c
