-- ===== src/Placement/Placed.antt =====
-- What the placement of an application ends with (scheduler/placement/placement.go).
use yunikorn_study.Prelude.{String, ℕ, ◌≡◌, ◌⊎◌, Option, none, some, Bool}
use yunikorn_study.Application.{Application}
use yunikorn_study.Queue.Manage.{get_queue_path}
use yunikorn_study.Partition.Monad.{Partition}
use yunikorn_study.Partition.Defs.{get_queue}
use yunikorn_study.Partition.Create.{create_queues}
use yunikorn_study.Placement.Manager.{Manager, PlaceError, Placement}
use yunikorn_study.Placement.Chosen.{Chosen, IsChosen, IsRefused}

module _ {Exp : Type 0} (compile : String → Option Exp) (match_string : Exp → String → Bool) where
  -- How a placement ends: at a nil queue, which is that of a rule or that of a name that the chosen
  -- rule answered and that is not found after its creation; with an error that the rules account for,
  -- and then only the queue name of the application is reset; or with the application in the queue of
  -- the name that the chosen rule answered.
  abbrev pub IsOutcome :
      Manager Exp
      → Partition
      → Application
      → Option (Partition × Application × Option PlaceError)
      → Type 0
  IsOutcome m pi app none =
      IsChosen compile match_string pi app m.rules none
      ⊎ ((name : String) × ((pi' : Partition) × Chosen compile match_string pi app m.rules pi' name
            × (create_queues pi name ≡ some (pi', none))
            × (get_queue pi' name ≡ none)))
  IsOutcome m pi app (some (pi', app', some e)) =
      (pi' ≡ pi)
      × (app' ≡ record app { queue_name = "" })
      × IsRefused compile match_string pi app m.rules e
  IsOutcome m pi app (some (pi', app', none)) =
      (name : String) × ((leaf : ℕ) × Chosen compile match_string pi app m.rules pi' name
        × (get_queue pi' name ≡ some leaf)
        × (app'.leaf_queue ≡ some leaf)
        × (get_queue_path pi'.queues leaf ≡ some app'.queue_name))
