-- ===== src/Tests/Actor.antt =====
-- The actor at a weak client.
use wifi_shepard.Prelude.{true, false, refl}
use wifi_shepard.Actor.{handle}
use wifi_shepard.Actor.DryRun
use wifi_shepard.Actor.DryRun.{Inert}
use wifi_shepard.Actor.Effect.{Effect}
use wifi_shepard.Actor.Live
use wifi_shepard.Tests.Fixtures.{weak, calm, actor_with, idle}

handle-Effect_example :
    Effect calm weak (actor_with false) (handle calm weak idle (actor_with false)).1
handle-Effect_example = Live.handle-Effect calm weak idle (actor_with false) refl

handle-dry_run_example : Inert (actor_with true) (handle calm weak idle (actor_with true)).1
handle-dry_run_example = DryRun.handle-dry_run calm weak idle (actor_with true) refl
