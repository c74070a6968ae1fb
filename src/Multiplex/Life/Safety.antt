-- ===== src/Multiplex/Life/Safety.antt =====
-- The life of a command whose caller waits for the semaphore.
use multiplexing_hiredis.Common.{◌≡◌, ◌⊎◌, false, Option, List, [], ◌∷◌}
use multiplexing_hiredis.Multiplex.Life.{
  Cell, live, freed, Caller, waiting, woken, fetched, returned, Loop, outside, storing, posting,
  Place, queued, sent, refused, gone, Life,
}

module _ {Reply : Type 0} where
  -- What is true of the memory, by where both threads stand.
  abbrev Shape : Caller Reply → Loop Reply → Place → Cell Reply → List (Option Reply) → Type 0
  Shape waiting outside queued (live ci) answers =
      (ci.reference ≡ 2) × (ci.posts ≡ 0) × (answers ≡ [])
  Shape waiting outside sent (live ci) answers =
      (ci.reference ≡ 2) × (ci.posts ≡ 0) × (answers ≡ [])
  Shape waiting outside refused (live ci) answers =
      (ci.reference ≡ 2) × (ci.posts ≡ 0) × (answers ≡ [])
  Shape waiting (storing r) gone (live ci) answers =
      (ci.reference ≡ 1) × (ci.posts ≡ 0) × (answers ≡ r ∷ [])
  Shape waiting posting gone (live ci) answers =
      (ci.reference ≡ 1) × (ci.posts ≡ 0) × (answers ≡ ci.reply ∷ [])
  Shape waiting outside gone (live ci) answers =
      (ci.reference ≡ 1)
      × (((ci.posts ≡ 0) × (answers ≡ [])) ⊎ ((ci.posts ≡ 1) × (answers ≡ ci.reply ∷ [])))
  Shape woken outside gone (live ci) answers = (ci.reference ≡ 1) × (answers ≡ ci.reply ∷ [])
  Shape (fetched r) outside gone (live ci) answers = (ci.reference ≡ 1) × (answers ≡ r ∷ [])
  Shape (returned r) outside gone freed answers = answers ≡ r ∷ []
  Shape _ _ _ _ _ = ⊥

  abbrev Safe : Life Reply → Type 0
  Safe s = (s.broken ≡ false) × Shape s.caller s.loop s.place s.cell s.answers

  -- When the caller has returned, the cmdInfo is freed and the reply is the one answer.
  pub Settled : Caller Reply → Cell Reply → List (Option Reply) → Type 0
  Settled (returned r) cell answers = (cell ≡ freed) × (answers ≡ r ∷ [])
  Settled _ cell answers = Unit
