-- ===== src/Examples/Actions.antt =====
-- The theorems on single transitions at concrete records, and the runs that they are about.
use ruk.Prelude.{◌⊎◌, ◌≡◌, refl, true, [], ◌∷◌, none, some}
use ruk.Prelude.Results.{ok, err}
use ruk.Errors.{operation_mismatch, acquisition_in_progress}
use ruk.State.{WorkspaceRecord, returning}
use ruk.Lifecycle.Assignment.{is_candidate}
use ruk.Lifecycle.Return.{ReturnOptions, start_return, begin_return, finish_return, cancel_return}
use ruk.Lifecycle.Collection.{begin_collection, collectable, collecting}
use ruk.Lifecycle.Process.{add_process, drop_process, clone_process_record}
use ruk.Lifecycle.Retries.{
  begin_return_idem, begin_collection_idem, drop_process-add_process, finish_return-is_candidate,
  cancel_return-start_return,
}
use ruk.Examples.Host.{host}
use ruk.Examples.Runs.{preparation_id, lease, idle, busy, leaving, worker}

abbrev plain : ReturnOptions
plain = record { require_expired_by = ""; acquisition_operation_id = ""; expected_updated_at = "*" }

abbrev left : WorkspaceRecord
left = record busy { lifecycle = returning; updated_at = host.format_time 5000000 }

abbrev pub freed : WorkspaceRecord
freed = record idle {
  updated_at = host.format_time 5000000;
  available_at = some (host.format_time 5000000);
}

abbrev pub collected : WorkspaceRecord
collected = record idle {
  operation_id = some preparation_id;
  updated_at = host.format_time 5000000;
}

abbrev working : WorkspaceRecord
working = record busy { processes = worker ∷ []; updated_at = host.format_time 5000000 }

-- A recovery release crosses the handoff with its identifier.
abbrev handing_over : WorkspaceRecord
handing_over = record busy { operation_id = some preparation_id }

abbrev recovery : ReturnOptions
recovery = record plain { acquisition_operation_id = preparation_id }

abbrev crossed : WorkspaceRecord
crossed = record handing_over { lifecycle = returning; updated_at = host.format_time 5000000 }

start_return-handing_over : start_return host 5000000 recovery lease handing_over ≡ ok crossed
unfolding start_return
start_return-handing_over = refl

start_return-busy : start_return host 5000000 plain lease busy ≡ ok left
unfolding start_return
start_return-busy = refl

begin_return-busy : begin_return host 5000000 plain lease busy ≡ ok left
unfolding begin_return
begin_return-busy = refl

pub finish_return-leaving : finish_return host 5000000 lease leaving ≡ ok freed
unfolding finish_return
finish_return-leaving = refl

begin_collection_idle : begin_collection host 5000000 preparation_id "*" idle ≡ ok collected
unfolding begin_collection collecting
begin_collection_idle = refl

add_process-busy : add_process host 5000000 worker lease busy ≡ ok working
unfolding add_process clone_process_record
add_process-busy = refl

begin_return_idem_example : begin_return host 9000000 plain lease left ≡ ok left
begin_return_idem_example =
    begin_return_idem host 5000000 9000000 plain plain lease lease busy left begin_return-busy

begin_collection_idem_example :
    begin_collection host 9000000 "other" collected.updated_at collected ≡ ok collected
begin_collection_idem_example =
    begin_collection_idem host 5000000 9000000 preparation_id "other" "*" idle collected
      begin_collection_idle

drop_process-add_process_example :
    drop_process host 9000000 worker.pid worker.started_at lease working
    ≡ ok (record busy { updated_at = host.format_time 9000000 })
drop_process-add_process_example =
    drop_process-add_process host 5000000 9000000 worker lease busy working add_process-busy

finish_return-is_candidate_example :
    (is_candidate none ("/w", freed) ≡ true)
    × (collectable preparation_id freed ≡ err operation_mismatch)
finish_return-is_candidate_example =
    finish_return-is_candidate host 5000000 lease "/w" preparation_id leaving freed
      finish_return-leaving

cancel_return-start_return_example :
    (crossed.assignment ≡ handing_over.assignment)
    × (cancel_return host 9000000 "no lock" lease crossed
        ≡ ok (record handing_over {
          available_at = none;
          failure = some "no lock";
          updated_at = host.format_time 9000000;
        }))
    × ((handing_over.operation_id ≡ none)
        ⊎ (begin_return host 9000000
              (record plain { acquisition_operation_id = "" })
              lease
              (record handing_over {
                available_at = none;
                failure = some "no lock";
                updated_at = host.format_time 9000000;
              })
            ≡ err acquisition_in_progress))
cancel_return-start_return_example =
    cancel_return-start_return host 5000000 9000000 9000000 recovery plain lease "no lock"
      handing_over crossed start_return-handing_over
