-- ===== src/Core/Tests/Snapshot.antt =====
-- A snapshot of the small program.
use rsmicro.Prelude.{◌≡◌, [], ◌++◌}
use rsmicro.Core.Types.{ok, Mode}
use rsmicro.Core.Snapshot.{snapshot_impl}
use rsmicro.Core.Snapshot.Complete.{logger, tag_events, envelope, rung_events, snapshot-events}
use rsmicro.Core.Tests.Program.{loaded}

snapshot-events_example : snapshot_impl logger loaded Mode.run [] ≡ (
  ok,
  []
      ++ (tag_events loaded 0 loaded.tag
          ++ envelope loaded Mode.run loaded.state
          ++ rung_events 0 loaded.rung_power),
)
snapshot-events_example = snapshot-events loaded Mode.run []
