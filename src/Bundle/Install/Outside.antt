-- ===== src/Bundle/Install/Outside.antt =====
-- What installing and removing a bundle leave alone.
use detc.Bundle.Disk.{Disk, Bundle}
use detc.Bundle.Disk.Leaves.{Leaves}
