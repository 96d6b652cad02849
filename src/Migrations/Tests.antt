-- ===== src/Migrations/Tests.antt =====
-- Runs of the migrations, up, down and up again.
use tradinghub.Base.{some, none, ◌≡◌, refl}
use tradinghub.Migrations.{Deployment, upgrade_once, downgrade_once}
use tradinghub.Migrations.Stages.{
  nothing, emptied, users_made, sessions_made, accounts_made, indexed, reindexed, dropped, restored,
  at, upgrade_once-at, downgrade_once-at,
}
use tradinghub.Migrations.Comparison.{SameSchema, IsDeclared}
use tradinghub.Migrations.Chain.{
  Reached, start, up, down, repeated, Reached-ends, Reached-IsDeclared, downgrade_once-upgrade_once,
}

-- Up once and down again: the extension stays.
emptied_once : Reached (at emptied)
emptied_once = down (up (start refl) (upgrade_once-at nothing)) (downgrade_once-at users_made)

to_indexed : Reached (at indexed)
to_indexed =
    up
      (up (up (up emptied_once (upgrade_once-at emptied)) (upgrade_once-at users_made))
        (upgrade_once-at sessions_made))
      (upgrade_once-at accounts_made)

-- The column dropped, returned, dropped again and restored.
to_head : Reached (at restored)
to_head =
    up
      (up (down (up to_indexed (upgrade_once-at indexed)) (downgrade_once-at dropped))
        (upgrade_once-at reindexed))
      (upgrade_once-at dropped)

Reached-ends_example :
    ((repeated upgrade_once 6 (at emptied)).version ≡ some "095fd0b06881")
    × ((repeated downgrade_once 6 (at emptied)).version ≡ none)
Reached-ends_example = Reached-ends emptied_once

Reached-IsDeclared_example : IsDeclared (at restored).schema
Reached-IsDeclared_example = Reached-IsDeclared to_head refl

downgrade_once-upgrade_once_example :
    (d : Deployment) × (downgrade_once (at dropped) ≡ some d)
    × (d.version ≡ (at indexed).version)
    × SameSchema d.schema (at indexed).schema
downgrade_once-upgrade_once_example =
    downgrade_once-upgrade_once to_indexed (upgrade_once-at indexed)
