-- ===== src/Tests/Windows.antt =====
-- A store of the item "a" with zero bytes behind it, before "c" is added.
use pupa.Common.{◌&&◌, ltb, leb, if◌then◌else◌}
use pupa.Memory.{Mem}
use pupa.Context.{Ctx}
use pupa.Store.Visible.{Visible}
use pupa.Tests.Fixture.{bytes, one}

abbrev blank : Mem
blank x = if leb 192 x && ltb x 256 then 0 else bytes x

abbrev lonely : Ctx
lonely = record one { mem = blank }
