-- ===== src/Multiplex/Life/Serial.antt =====
-- The life of a command when replyCallback is not interrupted by the caller.
use multiplexing_hiredis.Common.{ℕ, ◌≡◌, ◌⊎◌, true, false, Option, none, List, [], ◌∷◌}
use multiplexing_hiredis.Multiplex.Life.{
  Cell, live, freed, Caller, waiting, woken, fetched, late, searched, returned, Loop, outside,
  storing, posting, Place, gone, Life,
}

module _ {Reply : Type 0} where
  -- A reply that was read is NULL, or the one that replyCallback was called with.
  abbrev Right : Option Reply → List (Option Reply) → Type 0
  Right r answers = (r ≡ none) ⊎ (answers ≡ r ∷ [])

  -- A cmdInfo with `n` references whose reply is right.
  abbrev Held : ℕ → Cell Reply → List (Option Reply) → Type 0
  Held n (live ci) answers = (ci.reference ≡ n) × Right ci.reply answers
  Held n freed answers = ⊥

  -- Nobody but the caller has the pointer, and the caller does not use it any more: it is freed, or
  -- left to itself.
  abbrev Left : Cell Reply → Type 0
  Left (live ci) = ci.reference ≡ 1
  Left freed = Unit

  -- What is true of the memory before the caller has given up its reference.
  abbrev Early : Loop Reply → Place → Cell Reply → List (Option Reply) → Type 0
  Early outside gone cell answers = Held 1 cell answers
  Early outside _ cell answers = Held 2 cell answers × (answers ≡ [])
  Early (storing r) gone cell answers = Held 1 cell answers × (answers ≡ r ∷ [])
  Early posting gone cell answers = Held 1 cell answers
  Early _ _ _ _ = ⊥

  -- And after that.
  abbrev Late : Loop Reply → Place → Cell Reply → List (Option Reply) → Type 0
  Late outside gone cell answers = Left cell
  Late outside _ (live ci) answers = (ci.reference ≡ 1) × (answers ≡ [])
  Late _ _ _ _ = ⊥

  abbrev Shape : Caller Reply → Loop Reply → Place → Cell Reply → List (Option Reply) → Type 0
  Shape waiting loop place cell answers = Early loop place cell answers
  Shape woken loop place cell answers = Early loop place cell answers
  Shape (fetched r) loop place cell answers = Early loop place cell answers × Right r answers
  Shape (late r) loop place cell answers = Late loop place cell answers × (r ≡ none)
  Shape (searched r) loop place cell answers = Late loop place cell answers × (r ≡ none)
  Shape (returned r) loop place cell answers = Late loop place cell answers × Right r answers

  abbrev Safe : Life Reply → Type 0
  Safe s =
      (s.broken ≡ false) × (s.connected ≡ true) × Shape s.caller s.loop s.place s.cell s.answers

  -- The caller returns NULL or the one answer.
  pub Answered : Caller Reply → List (Option Reply) → Type 0
  Answered (returned r) answers = (r ≡ none) ⊎ (answers ≡ r ∷ [])
  Answered _ answers = Unit
