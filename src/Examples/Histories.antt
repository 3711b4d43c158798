-- ===== src/Examples/Histories.antt =====
-- The theorems on steps at the first preparation of an empty state, and on buffers.
use ruk.Prelude.{◌≡◌, refl, false, [], ◌∷◌, arith}
use ruk.Prelude.Results.{ok}
use ruk.Prelude.Assoc.{lookup, put}
use ruk.State.{WorkspaceRecord, State, empty_state}
use ruk.State.Uuid.{valid_uuid}
use ruk.State.Valid.{tree_key}
use ruk.State.Document.{update}
use ruk.Lifecycle.Preparation.{new_workspace, begin_preparation}
use ruk.Lifecycle.Step.{Step, Reach, NewOperation}
use ruk.Lifecycle.Keeps.Sound.{IsSound}
use ruk.Lifecycle.Keeps.Reachable.{empty_state-IsSound, Step-IsSound, Reach-IsSound, update-Step}
use ruk.TailBuffer.{Buffer, new_tail_buffer, write, write_all}
use ruk.TailBuffer.Tail.{last, write-last, write_all-last}
use ruk.Examples.Host.{host, host-IsLawful}
use ruk.Examples.Runs.{preparation_id}

abbrev prepared : WorkspaceRecord
prepared = new_workspace "/w" "main" preparation_id (host.format_time 5000000)

abbrev first : State
first = record empty_state { workspaces = ("/w", prepared) ∷ [] }

begin_first :
    begin_preparation host 5000000 preparation_id "/w" "main" empty_state ≡ ok (first, prepared)
unfolding begin_preparation tree_key lookup put empty_state
begin_first = refl

preparation_id_new : NewOperation empty_state preparation_id
unfolding valid_uuid empty_state
preparation_id_new = (refl, refl)

begin_first-Step : Step host empty_state first
begin_first-Step =
    Step.begins 5000000 preparation_id "/w" "main" {w = prepared} begin_first (omega arith)
      preparation_id_new

Step-IsSound_example : IsSound host first
Step-IsSound_example =
    Step-IsSound host host-IsLawful empty_state first (empty_state-IsSound host) begin_first-Step

Reach-IsSound_example : IsSound host first
Reach-IsSound_example =
    Reach-IsSound host host-IsLawful first
      (Reach.next {s = empty_state} Reach.here begin_first-Step)

update-Step_example :
    update host (begin_preparation host 5000000 preparation_id "/w" "main") empty_state
    ≡ ok (first, prepared)
update-Step_example =
    update-Step host host-IsLawful (begin_preparation host 5000000 preparation_id "/w" "main")
      empty_state first prepared (empty_state-IsSound host) begin_first begin_first-Step

abbrev full : Buffer
full = record { limit = 3; tail = 1 ∷ 2 ∷ 3 ∷ []; truncated = false }

write-last_example :
    ((write (4 ∷ 5 ∷ []) full).tail ≡ last 3 (1 ∷ 2 ∷ 3 ∷ 4 ∷ 5 ∷ []))
    × ((write (4 ∷ 5 ∷ []) full).limit ≡ 3)
write-last_example = write-last (4 ∷ 5 ∷ []) full (omega arith)

write_all-last_example :
    (write_all ((1 ∷ []) ∷ (2 ∷ 3 ∷ 4 ∷ []) ∷ []) (new_tail_buffer 2)).tail ≡ 3 ∷ 4 ∷ []
write_all-last_example = write_all-last 2 ((1 ∷ []) ∷ (2 ∷ 3 ∷ 4 ∷ []) ∷ [])

-- A write of exactly the limit after other bytes discards them, and does not record it.
write_exact :
    write (4 ∷ 5 ∷ 6 ∷ []) full ≡ record { limit = 3; tail = 4 ∷ 5 ∷ 6 ∷ []; truncated = false }
unfolding write
write_exact = refl
