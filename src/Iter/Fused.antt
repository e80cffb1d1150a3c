-- ===== src/Iter/Fused.antt =====
-- The scan ends for good: the promise of `FusedIterator`.
use db.Prelude.{ℕ, zero, suc, ◌≡◌, refl, ap, ◌∙◌, ◌⊎◌, inl, inr, Option, none, some}
use db.Outcomes.{Outcome, ok, Outcome-cases}
use db.Words.{Endian}
use db.Db.{Db}
use db.Iter.{Entry, State, pristine, active, done, initial_state, yield_current, next_loop, next}

module _ (h : Endian) (db : Db) where
  -- a call that yielded an entry, or one that left `done` behind
  abbrev YieldsOrEnds : Option (Outcome Entry) × State → Type 0
  YieldsOrEnds call = ((entry : Entry) × (call.0 ≡ some (ok entry))) ⊎ (call.1 ≡ done)

  next_loop-YieldsOrEnds :
      (rounds fuel : ℕ) (state : State) → YieldsOrEnds (next_loop h db rounds fuel state)
  unfolding next_loop
  next_loop-YieldsOrEnds zero fuel state = inr refl
  next_loop-YieldsOrEnds (suc rounds) fuel done = inr refl
  next_loop-YieldsOrEnds (suc rounds) fuel pristine =
      elim (Outcome-cases (initial_state h db fuel)) [
        | inl (state, e) ↦ rw (next_loop, e) (next_loop-YieldsOrEnds rounds fuel state)
        | inr (inl (error, e)) ↦ rw (next_loop, e) (inr refl)
        | inr (inr (inl e)) ↦ rw (next_loop, e) (inr refl)
        | inr (inr (inr e)) ↦ rw (next_loop, e) (inr refl)
      ]
  next_loop-YieldsOrEnds (suc rounds) fuel (active cursor) =
      elim (Outcome-cases (yield_current h db fuel cursor)) [
        | inl ((entry, state), e) ↦ rw (next_loop, e) (inl (entry, refl))
        | inr (inl (error, e)) ↦ rw (next_loop, e) (inr refl)
        | inr (inr (inl e)) ↦ rw (next_loop, e) (inr refl)
        | inr (inr (inr e)) ↦ rw (next_loop, e) (inr refl)
      ]

  next-YieldsOrEnds : (fuel : ℕ) (state : State) → YieldsOrEnds (next h db fuel state)
  unfolding next
  next-YieldsOrEnds fuel state = next_loop-YieldsOrEnds 2 fuel state

  next-done : (fuel : ℕ) → next h db fuel done ≡ (none, done)
  unfolding next next_loop
  next-done fuel = refl

-- In every state, on every file: a call of `next` yields an entry, or the call after it returns
-- `None` and changes nothing, so a scan that reported its end or an error never resumes.
pub next-fused :
    (h : Endian) (db : Db) (fuel fuel' : ℕ) (state : State)
    → ((entry : Entry) × ((next h db fuel state).0 ≡ some (ok entry)))
      ⊎ (next h db fuel' (next h db fuel state).1 ≡ (none, done))
next-fused h db fuel fuel' state = elim (next-YieldsOrEnds h db fuel state) [
  | inl yielded ↦ inl yielded
  | inr ended ↦ inr (ap (next h db fuel') ended ∙ next-done h db fuel')
]
