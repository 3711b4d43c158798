-- ===== src/Examples/Processes.antt =====
-- Snapshots of a process table.
use ruk.Prelude.{◌≡◌, refl, ◌↔◌, true, false, List, [], ◌∷◌, none, some, String}
use ruk.Prelude.Int.{ℤ, pos}
use ruk.Prelude.Results.{ok}
use ruk.Prelude.{◌∈◌, ◌==◌, if◌then◌else◌}
use ruk.Prelude.Text.{codes}
use ruk.Versions.{Text}
use ruk.Descendants.Links.{descendants_created_after_parents, Follows}
use ruk.Descendants.Walked.{descendants_created_after_parents_lem}
use ruk.Descendants.{Entry, has, close, exists}
use ruk.Descendants.Closure.{Descends, Built, ancestors_lem}
use ruk.Descendants.Answer.{HasDescendant, exists_iff}

abbrev missing : String
missing = "process table is unavailable"

abbrev grandchild : Entry
grandchild = record { pid = pos 12; parent_pid = pos 11; group_id = pos 12 }

abbrev worker : Entry
worker = record { pid = pos 11; parent_pid = pos 10; group_id = pos 11 }

abbrev stranger : Entry
stranger = record { pid = pos 30; parent_pid = pos 1; group_id = pos 30 }

-- The grandchild is listed before its parent.
abbrev table : List Entry
table = grandchild ∷ stranger ∷ worker ∷ []

ancestors-of-ten : close 4 (pos 10) table (pos 10 ∷ []) ≡ some (pos 12 ∷ pos 11 ∷ pos 10 ∷ [])
unfolding close
ancestors-of-ten = refl

exists-ten : exists (pos 10) none missing (some (ok table)) ≡ ok true
unfolding exists
exists-ten = refl

exists-stranger : exists (pos 30) none missing (some (ok table)) ≡ ok false
unfolding exists
exists-stranger = refl

exists_iff_example :
    (exists (pos 10) none missing (some (ok table)) ≡ ok true) ↔ HasDescendant (pos 10) table
exists_iff_example = exists_iff (pos 10) table missing refl

ancestors_lem_example :
    (final : List ℤ) × (close 4 (pos 10) table (pos 10 ∷ []) ≡ some final)
    × Built (pos 10) table final
    × ((p : ℤ) → (has final p ≡ true) ↔ Descends (pos 10) table p)
ancestors_lem_example = ancestors_lem (pos 10) table

-- The worker is older than the process that it names as its parent, and the grandchild is not.
abbrev ticks : ℤ → Text
ticks (pos n) = if n == 11 then codes "90" else (if n == 10 then codes "100" else codes "")
ticks _ = []

older_worker :
    descendants_created_after_parents table (pos 10) (pos 12 ∷ pos 11 ∷ []) ticks ≡ some []
unfolding descendants_created_after_parents
older_worker = refl

descendants_created_after_parents_lem_example :
    (result : List ℤ) × (descendants_created_after_parents table
        (pos 10)
        (pos 12 ∷ pos 11 ∷ [])
        (λ p. [])
      ≡ some result)
    × ((p : ℤ) → p ∈ result → (p ∈ (pos 12 ∷ pos 11 ∷ [])) × Follows (λ p. []) (pos 10) table p)
descendants_created_after_parents_lem_example =
    descendants_created_after_parents_lem (λ p. []) (pos 10) table (pos 12 ∷ pos 11 ∷ [])
