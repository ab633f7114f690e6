-- ===== src/Codes/Batch/Examples.antt =====
-- CreateBatch on two inputs, one of which repeats the alias of the other.
use qurator.Common.{ℕ, List, [], ◌∷◌, bytes}
use qurator.Store.State.{Ctx, live, new_mem_store}
use qurator.Codes.Prepare.{CreateInput}
use qurator.Codes.Samples.{env, service, dice, menu}
use qurator.Codes.Sessions.{empty_world}
use qurator.Codes.Batch.{Insertion, create_batch}
use qurator.Codes.Batch.Positions.{to_insert, rendered_slots}
use qurator.Codes.Batch.Answers.{Answers, create_batch-Answers}
use qurator.Codes.Batch.Atomic.{AllOrNone, created_codes, create_batch-AllOrNone}

abbrev always : ℕ → Ctx
always i = live

abbrev inserting : Insertion
inserting = record { ctx = live; at = 11; styling_bytes = λ i j. 0 }

abbrev menus : List CreateInput
menus = menu ∷ menu ∷ []

create_batch-Answers_example :
    Answers service
      (bytes "ann")
      0
      menus
      (create_batch env service always dice inserting
        (bytes "ann")
        menus
        (empty_world env service [])).0
create_batch-Answers_example =
    create_batch-Answers env service always dice inserting (bytes "ann") menus
      (empty_world env service [])

create_batch-AllOrNone_example :
    AllOrNone inserting
      (bytes "ann")
      (to_insert
        (rendered_slots env service always dice (bytes "ann") menus (empty_world env service [])))
      new_mem_store
      (create_batch env service always dice inserting
        (bytes "ann")
        menus
        (empty_world env service [])).1.store
      (created_codes
        (create_batch env service always dice inserting
          (bytes "ann")
          menus
          (empty_world env service [])).0)
create_batch-AllOrNone_example =
    create_batch-AllOrNone env service always dice inserting (bytes "ann") menus
      (empty_world env service [])
