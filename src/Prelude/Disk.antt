-- ===== src/Prelude/Disk.antt =====
-- The files that the program reads and writes (os.ReadFile, os.WriteFile): a path that has no
-- entry cannot be read, and a path that is not writable cannot be written.
use mathlib.Core.Path.{◌≡◌}
use mathlib.Core.Bool.{Bool}
use mathlib.Core.Option.{Option, none, some}
use Prim.Native.String.{String}
use native.Mathlib.Omega.{arith}
use mathlib.Core.Logic.{◌≢◌}
use text.Mathlib.TextPositions.{eq_refl}
use text.Mathlib.TextEquality.{eq_iff}
use fieldlink.Prelude.Tests.{◌==◌, if◌then◌else◌}
use fieldlink.Prelude.Texts.{Bytes}

pub record Disk : Type 0 where
  pub contents : String → Option Bytes
  pub writable : String → Bool

abbrev pub read_file : Disk → String → Option Bytes
read_file d path = d.contents path

-- `none` is an error, and the disk is as before.
unfoldable pub write_file : Disk → String → Bytes → Option Disk
write_file d path text =
    if d.writable path
    then some (record d { contents = λ p. if p == path then some text else d.contents p })
    else none

pub read_file-write_file :
    (d : Disk) (path : String) (text : Bytes) {d' : Disk}
    → write_file d path text ≡ some d'
    → read_file d' path ≡ some text
unfolding write_file
read_file-write_file d path text h = ground (arith, eq_refl path)

-- The other files stay as they are.
pub read_file-write_file_ne :
    (d : Disk) (path other : String) (text : Bytes) {d' : Disk}
    → other ≢ path
    → write_file d path text ≡ some d'
    → read_file d' other ≡ read_file d other
unfolding write_file
read_file-write_file_ne d path other text ne h = ground (arith, eq_iff other path)
