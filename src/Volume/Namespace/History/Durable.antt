-- ===== src/Volume/Namespace/History/Durable.antt =====
-- Each operation leaves in memory what the devices hold, whether it succeeds or fails.
use argos_fs.Common.{◌≡◌, Option, none, some}
use argos_fs.Error.{Result, ok, err}
use argos_fs.Volume.Commit.{Mount}
use argos_fs.Volume.Commit.Storage.{Storage}
use argos_fs.Volume.Tree.{Tree}

-- What the devices hold after the operation, which held the tree before: the same tree where none is
-- staged, and what the attempt to commit makes of them where one is.
abbrev pub Follows : Mount → Tree → Result (Option Tree) → Tree → Type 0
Follows m before (err e) held = held ≡ before
Follows m before (ok none) held = held ≡ before
Follows m before (ok (some staged)) held = Storage m before staged held
