-- ===== src/Migrations/Chain.antt =====
-- What holds of every database that upgrades and downgrades led to, in any order.
use mathlib.Core.Path.{subst}
use mathlib.Core.List.Permᴰ as Perm
use tradinghub.Base.{
  Bool, true, false, same_text, ℕ, zero, suc, String, Option, none, some, [], ◌≡◌, refl, sym, ap,
  ◌∙◌,
}
use tradinghub.Sql.Schema.{empty_schema}
use tradinghub.Migrations.{Deployment, upgrade_once, downgrade_once}
use tradinghub.Migrations.Comparison.{
  none_left, both, SameSchema, IsDeclared, same_table, same_schema, grouped_columns,
}
use tradinghub.Migrations.Stages.{
  Stage, nothing, emptied, users_made, sessions_made, accounts_made, accounts_remade, indexed,
  reindexed, dropped, restored, at, after_upgrade, after_downgrade, at_stage, upgrade_once-at,
  downgrade_once-at,
}

abbrev pub new_database : Deployment
new_database = record { version = none; schema = empty_schema }

pub data Reached : Deployment → Type 0 where
  start : {d : Deployment} → d ≡ new_database → Reached d
  up : {d d' : Deployment} → Reached d → upgrade_once d ≡ some d' → Reached d'
  down : {d d' : Deployment} → Reached d → downgrade_once d ≡ some d' → Reached d'

stage_after : (g : Option Stage) {d : Deployment} → at_stage g ≡ some d → (h : Stage) × (d ≡ at h)
stage_after none e = cc
stage_after (some h) e = (h, cc)

Reached-stage : {d : Deployment} → Reached d → (g : Stage) × (d ≡ at g)
Reached-stage (start e) = (nothing, e)
Reached-stage (up {d} {d'} r e) =
    let (g, here) = Reached-stage r in
    stage_after (after_upgrade g) (sym (upgrade_once-at g) ∙ sym (ap upgrade_once here) ∙ e)
Reached-stage (down r e) =
    let (g, here) = Reached-stage r in
    stage_after (after_downgrade g) (sym (downgrade_once-at g) ∙ sym (ap downgrade_once here) ∙ e)

-- Steps up or down until there is none, at most so many.
abbrev pub repeated : (Deployment → Option Deployment) → ℕ → Deployment → Deployment
repeated step zero d = d
repeated step (suc n) d = elim (step d) [ none ↦ d | some d' ↦ repeated step n d' ]

abbrev stages : (Stage → Option Stage) → ℕ → Stage → Stage
stages step zero g = g
stages step (suc n) g = elim (step g) [ none ↦ g | some g' ↦ stages step n g' ]

repeated-at :
    (step : Deployment → Option Deployment) (after : Stage → Option Stage)
    → ((g : Stage) → step (at g) ≡ at_stage (after g))
    → (n : ℕ) (g : Stage) → repeated step n (at g) ≡ at (stages after n g)
repeated-at step after e zero g = refl
repeated-at step after e (suc n) g =
    subst
      (λ o.
        elim o [ none ↦ at g | some d' ↦ repeated step n d' ]
        ≡ at (elim (after g) [ none ↦ g | some g' ↦ stages after n g' ]))
      (sym (e g))
      (elim (after g)
        as (λ o.
          elim (at_stage o) [ none ↦ at g | some d' ↦ repeated step n d' ]
          ≡ at (elim o [ none ↦ g | some g' ↦ stages after n g' ])) [
            | none ↦ refl
            | some g' ↦ repeated-at step after e n g'
          ])

head_reached : (g : Stage) → stages after_upgrade 6 g ≡ restored
head_reached nothing = refl
head_reached emptied = refl
head_reached users_made = refl
head_reached sessions_made = refl
head_reached accounts_made = refl
head_reached accounts_remade = refl
head_reached indexed = refl
head_reached reindexed = refl
head_reached dropped = refl
head_reached restored = refl

bottom_reached : (g : Stage) → (at (stages after_downgrade 6 g)).version ≡ none
bottom_reached nothing = refl
bottom_reached emptied = refl
bottom_reached users_made = refl
bottom_reached sessions_made = refl
bottom_reached accounts_made = refl
bottom_reached accounts_remade = refl
bottom_reached indexed = refl
bottom_reached reindexed = refl
bottom_reached dropped = refl
bottom_reached restored = refl

restored-IsDeclared : IsDeclared (at restored).schema
restored-IsDeclared = (
  both (same_table _) (
      both (record { name = refl; columns = Perm.refl _; constraints = Perm.swap refl refl })
        (both
          (record {
            name = refl;
            columns = Perm.refl _;
            constraints = Perm.cons refl (Perm.symm (Perm.reverse _));
          })
          (both (record { name = refl; columns = grouped_columns; constraints = Perm.refl _ })
            none_left))),
  Perm.refl _,
)

-- What a step down makes of the stage that a step up led to.
abbrev Back : Stage → Option Stage → Type 0
Back g none = Unit
Back g (some g') =
    (h : Stage) × (after_downgrade g' ≡ some h)
    × ((at h).version ≡ (at g).version)
    × SameSchema (at h).schema (at g).schema

back : (g : Stage) → Back g (after_upgrade g)
back nothing = (emptied, refl, refl, record { tables = none_left; indexes = Perm.refl [] })
back emptied = (emptied, refl, refl, same_schema _)
back users_made = (users_made, refl, refl, same_schema _)
back sessions_made = (sessions_made, refl, refl, same_schema _)
back accounts_made = (accounts_made, refl, refl, same_schema _)
back accounts_remade = (accounts_remade, refl, refl, same_schema _)
back indexed = (
  reindexed,
  refl,
  refl,
  record {
    tables = both (same_table _) (
        both (same_table _) (
          both (same_table _) (
            both (record { name = refl; columns = grouped_columns; constraints = Perm.refl _ })
              none_left)));
    indexes = Perm.refl _;
  },
)
back reindexed = (reindexed, refl, refl, same_schema _)
back dropped = (dropped, refl, refl, same_schema _)
back restored = tt

back_from :
    (g : Stage) {d' : Deployment}
    → at_stage (after_upgrade g) ≡ some d'
    → (d'' : Deployment) × (downgrade_once d' ≡ some d'')
      × (d''.version ≡ (at g).version)
      × SameSchema d''.schema (at g).schema
back_from g {d'} e = from (after_upgrade g) (back g) e
  where
    from :
        (o : Option Stage)
        → Back g o
        → at_stage o ≡ some d'
        → (d'' : Deployment) × (downgrade_once d' ≡ some d'')
          × (d''.version ≡ (at g).version)
          × SameSchema d''.schema (at g).schema
    from none b e = cc
    from (some g') (h, below, same, schemas) e =
        let there : at g' ≡ d' = cc in
        (
          at h,
          ap downgrade_once (sym there) ∙ downgrade_once-at g' ∙ ap at_stage below,
          same,
          schemas,
        )

-- From whatever database upgrades and downgrades led to, at most six more upgrades lead to the last
-- revision and at most six downgrades to none.
pub Reached-ends :
    {d : Deployment}
    → Reached d
    → ((repeated upgrade_once 6 d).version ≡ some "095fd0b06881")
      × ((repeated downgrade_once 6 d).version ≡ none)
Reached-ends r =
    let (g, here) = Reached-stage r in
    rw here (
      (
        ap (λ d. d.version) (repeated-at upgrade_once after_upgrade upgrade_once-at 6 g)
            ∙ ap (λ g. (at g).version) (head_reached g),
        ap (λ d. d.version) (repeated-at downgrade_once after_downgrade downgrade_once-at 6 g)
            ∙ bottom_reached g,
      ))

abbrev is_head : Option String → Bool
is_head none = false
is_head (some version) = same_text version "095fd0b06881"

at_head : (g : Stage) → is_head (at g).version ≡ true → g ≡ restored
at_head restored e = refl
at_head g e = cc

-- A database that upgrades and downgrades led to, in any order, has at the last revision the tables,
-- constraints and indexes that the models declare, up to the order of columns and constraints.
pub Reached-IsDeclared :
    {d : Deployment} → Reached d → d.version ≡ some "095fd0b06881" → IsDeclared d.schema
Reached-IsDeclared r e =
    let (g, here) = Reached-stage r in
    let last = at_head g (ap is_head (sym (ap (λ d. d.version) here) ∙ e)) in
    subst (λ d. IsDeclared d.schema) (sym (here ∙ ap at last)) restored-IsDeclared

-- On a database that upgrades and downgrades led to, the downgrade undoes the upgrade: the version
-- is the old one, and so are the tables and indexes up to the order of columns and constraints.
pub downgrade_once-upgrade_once :
    {d d' : Deployment}
    → Reached d
    → upgrade_once d ≡ some d'
    → (d'' : Deployment) × (downgrade_once d' ≡ some d'')
      × (d''.version ≡ d.version)
      × SameSchema d''.schema d.schema
downgrade_once-upgrade_once {d} {d'} r e =
    let (g, here) = Reached-stage r in
    subst
      (λ d.
        (d'' : Deployment) × (downgrade_once d' ≡ some d'')
        × (d''.version ≡ d.version)
        × SameSchema d''.schema d.schema)
      (sym here) (back_from g (sym (upgrade_once-at g) ∙ sym (ap upgrade_once here) ∙ e))
