-- ===== src/Lifecycle/Keeps/Reachable.antt =====
-- The steps of Lifecycle/Step and the histories of them, on a sound state.
use ruk.Prelude.{◌≡◌, refl, arith}
use ruk.Platform.{Platform, IsLawful}
use ruk.State.{State, empty_state}
use ruk.Errors.{Error}
use ruk.Prelude.Results.{Result, ok}
use ruk.State.Document.{update, valid_state, valid_metrics, valid_global_fences}
use ruk.Lifecycle.Step.{Step, Reach}
use ruk.Lifecycle.Keeps.Sound.{IsSound}
use ruk.Lifecycle.Keeps.Operations.{
  finish_preparation-IsSound, renew_assignment-IsSound, begin_workspace_return-IsSound,
  finish_workspace_return-IsSound, cancel_workspace_return-IsSound,
}
use ruk.Lifecycle.Keeps.Acquisitions.{
  begin_preparation-IsSound, mark_assigned-IsSound, retain-IsSound,
  refresh_acquisition_lease-IsSound, record_acquisition_success-IsSound,
  reserve_available_workspace-IsSound,
}
use ruk.Lifecycle.Keeps.Actions.{
  begin_assignment_activity-IsSound, refresh_assignment_activity-IsSound,
  finish_assignment_activity-IsSound, begin_workspace_collection-IsSound,
  remove_unassigned_process-IsSound, cancel_workspace_collection-IsSound,
  delete_workspace_record-IsSound, add_assignment_process-IsSound,
  remove_assignment_process-IsSound,
}

pub empty_state-IsSound : (e : Platform) → IsSound e empty_state
unfolding valid_state empty_state valid_metrics valid_global_fences
empty_state-IsSound e = record { valid = refl; map = refl }

module _ (e : Platform) (lawful : IsLawful e) where
  -- Whenever the platform is lawful, the state s is sound (its document passes the validation of
  -- the decoder and its keys are distinct) and a step leads from s to t, the state t is sound. A step
  -- is a successful operation whose new identifiers are fresh, whose instants lie before year
  -- 10000, whose leases and heartbeats last a millisecond or longer, whose retained process is
  -- valid and comes with a failure, whose counters stay in the range of the document, and which
  -- cancels no collection of a workspace in preparation.
  pub Step-IsSound : (s t : State) → IsSound e s → Step e s t → IsSound e t
  Step-IsSound s t h (Step.begins now new_id path branch done clock new) =
      begin_preparation-IsSound e lawful s h now new_id path branch done clock new
  Step-IsSound s t h (Step.finishes now path id failure retained done clock early process given) =
      finish_preparation-IsSound e lawful s h now path id failure retained done clock early process
        given
  Step-IsSound s t h
        (Step.reserves now new_id operation_id input requested done id operation early) =
      reserve_available_workspace-IsSound e lawful s h now new_id operation_id input requested done
        id operation early
  Step-IsSound s t h
        (Step.assigns now new_id operation_id path preparation input done id operation early) =
      mark_assigned-IsSound e lawful s h now new_id operation_id path preparation input done id
        operation early
  Step-IsSound s t h (Step.retains now id operation_id failure retained done clock early process) =
      retain-IsSound e lawful s h now id operation_id failure retained done clock early process
  Step-IsSound s t h (Step.succeeds now id operation_id reused done clock counted) =
      record_acquisition_success-IsSound e lawful s h now id operation_id reused done clock counted
  Step-IsSound s t h (Step.refreshes now id operation_id renewed_at expires_at minutes done early) =
      refresh_acquisition_lease-IsSound e lawful s h now id operation_id renewed_at expires_at
        minutes done early
  Step-IsSound s t h (Step.renews now id expires_at expected done bound) =
      renew_assignment-IsSound e lawful s h now id expires_at expected done bound
  Step-IsSound s t h (Step.starts_activity now id keeper_id duration done lasting early) =
      begin_assignment_activity-IsSound e lawful s h now id keeper_id duration done lasting early
  Step-IsSound s t h (Step.beats now id keeper_id valid_until done early) =
      refresh_assignment_activity-IsSound e lawful s h now id keeper_id valid_until done early
  Step-IsSound s t h (Step.ends_activity now id keeper_id done early) =
      finish_assignment_activity-IsSound e lawful s h now id keeper_id done early
  Step-IsSound s t h (Step.returns now id options done clock) =
      begin_workspace_return-IsSound e lawful s h now id options done clock
  Step-IsSound s t h (Step.releases now id done clock) =
      finish_workspace_return-IsSound e lawful s h now id done clock
  Step-IsSound s t h (Step.cancels_return now id failure done clock) =
      cancel_workspace_return-IsSound e lawful s h now id failure done clock
  Step-IsSound s t h (Step.collects now new_id path updated_at done clock new) =
      begin_workspace_collection-IsSound e lawful s h now new_id path updated_at done clock new
  Step-IsSound s t h
        (Step.drops_unassigned now path lifecycle operation_id updated_at pid started_at done
          clock) =
      remove_unassigned_process-IsSound e lawful s h now path lifecycle operation_id updated_at pid
        started_at done clock
  Step-IsSound s t h (Step.cancels_collection now path operation_id done clock settled) =
      cancel_workspace_collection-IsSound e lawful s h now path operation_id done clock settled
  Step-IsSound s t h (Step.deletes path operation_id done) =
      delete_workspace_record-IsSound e lawful s h path operation_id done
  Step-IsSound s t h (Step.tracks now id r done clock) =
      add_assignment_process-IsSound e lawful s h now id r done clock
  Step-IsSound s t h (Step.drops now id pid started_at done clock) =
      remove_assignment_process-IsSound e lawful s h now id pid started_at done clock

  -- Whenever the platform is lawful, every state that a history of such operations reaches from the
  -- empty state is sound.
  pub Reach-IsSound : (s : State) → Reach e s → IsSound e s
  Reach-IsSound s (Reach.here) = empty_state-IsSound e
  Reach-IsSound t (Reach.next {s = s} before step) = Step-IsSound s t (Reach-IsSound s before) step

  -- Whenever the platform is lawful, the state s is sound, a change leads from s to t with a result, and
  -- that change is a step of the lifecycle, the transaction of the store writes t and gives the
  -- result: its validation refuses nothing.
  pub update-Step :
      {A : Type 0} (mutate : State → Result Error (State × A)) (s t : State) (result : A)
      → IsSound e s
      → mutate s ≡ ok (t, result)
      → Step e s t
      → update e mutate s ≡ ok (t, result)
  unfolding update
  update-Step mutate s t result h done step =
      let passes = (Step-IsSound s t h step).valid in ground (arith, done, passes)
