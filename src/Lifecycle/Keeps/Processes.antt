-- ===== src/Lifecycle/Keeps/Processes.antt =====
-- The process lists of a workspace under process.go and retained_process.go.
use ruk.Prelude.{
  ◌≡◌, refl, inl, inr, Bool, true, false, not, ◌&&◌, ◌||◌, &&-eq-true, List, [], ◌∷◌, ◌++◌, Option,
  none, some, String, arith, Bool-cases, Option-cases, any_of, is_empty,
}
use ruk.Prelude.Text.{str_eq, is_blank}
use ruk.Prelude.Int.{ℤ, eq_ℤ, eq_ℤ_iff}
use ruk.Prelude.Results.{ok, Result-cases}
use ruk.State.{TrackedProcessRecord, WorkspaceRecord}
use ruk.State.Valid.{is_nil, check, unless_nil, valid_safe_positive, valid_process, valid_processes}
use ruk.Lifecycle.Process.{
  same_nil, clone_command, validate_process_record, clone_process_record, is_tracked, is_identity,
  remove_process, retain_among, append_retained_process,
}

valid_processes-append :
    (seen : List ℤ) (ps : List TrackedProcessRecord) (r : TrackedProcessRecord)
    → valid_processes seen ps ≡ true
    → valid_process r ≡ true
    → any_of (eq_ℤ r.pid) seen ≡ false
    → is_tracked r.pid ps ≡ false
    → valid_processes seen (ps ++ (r ∷ [])) ≡ true
unfolding valid_processes
valid_processes-append seen [] r h v new free = ground (arith, v, new)
valid_processes-append seen (p ∷ ps) r h v new free =
    ground (
      arith,
      eq_ℤ_iff p.pid r.pid,
      eq_ℤ_iff r.pid p.pid,
      valid_processes-append (p.pid ∷ seen) ps r,
    )

valid_processes-weaken :
    (seen seen' : List ℤ) (ps : List TrackedProcessRecord)
    → ((x : ℤ) → any_of (eq_ℤ x) seen ≡ false → any_of (eq_ℤ x) seen' ≡ false)
    → valid_processes seen ps ≡ true
    → valid_processes seen' ps ≡ true
unfolding valid_processes
valid_processes-weaken seen seen' [] fewer h = refl
valid_processes-weaken seen seen' (p ∷ ps) fewer h = ground (
  arith,
  fewer p.pid,
  valid_processes-weaken (p.pid ∷ seen) (p.pid ∷ seen') ps (λ x none. ground (arith, fewer x)),
)

-- Removing a process keeps the list valid.
pub valid_processes-remove_process :
    (seen : List ℤ) (pid : ℤ) (started_at : String) (ps : List TrackedProcessRecord)
    {qs : List TrackedProcessRecord}
    → remove_process pid started_at ps ≡ some qs
    → valid_processes seen ps ≡ true
    → valid_processes seen qs ≡ true
unfolding remove_process valid_processes
valid_processes-remove_process seen pid started_at [] e h = cc
valid_processes-remove_process seen pid started_at (p ∷ ps) {qs} e h =
    elim (Bool-cases (is_identity pid started_at p)) [
      | inl hit ↦
          ground
            (arith, hit, valid_processes-weaken (p.pid ∷ seen) seen ps (λ x other. ground arith))
      | inr miss ↦ elim (Option-cases (remove_process pid started_at ps)) [
        | inl gone ↦ ground (arith, miss, gone)
        | inr (kept, found) ↦ ground (
          arith,
          miss,
          found,
          valid_processes-remove_process (p.pid ∷ seen) pid started_at ps found,
        )
      ]
    ]

pub is_empty-remove_process :
    (pid : ℤ) (started_at : String) (ps qs : List TrackedProcessRecord)
    → remove_process pid started_at ps ≡ some qs
    → is_empty ps ≡ false
unfolding remove_process
is_empty-remove_process pid started_at [] qs e = cc
is_empty-remove_process pid started_at (p ∷ ps) qs e = refl

-- The tests of validateProcessRecord in the order of those of the document.
reorder :
    (a b c d e f g h s k : Bool)
    → (a && b && c && d && e && f && g && h) ≡ true
    → (e ≡ true → f ≡ true → g ≡ true → s ≡ true)
    → k ≡ true
    → (a && b && d && s && g && h && k) ≡ true
reorder a b c d e f g h s k p session command =
    let (p1, ph) = &&-eq-true (a && b && c && d && e && f && g) h p in
    let (p2, pg) = &&-eq-true (a && b && c && d && e && f) g p1 in
    let (p3, pf) = &&-eq-true (a && b && c && d && e) f p2 in
    let (p4, pe) = &&-eq-true (a && b && c && d) e p3 in
    let (p5, pd) = &&-eq-true (a && b && c) d p4 in
    let (p6, pc) = &&-eq-true (a && b) c p5 in
    let (pa, pb) = &&-eq-true a b p6 in rw (pa, pb, pd, session pe pf pg, pg, ph, command) refl

session_valid :
    (session : Option ℤ) (started : Option String)
    → unless_nil session valid_safe_positive ≡ true
    → same_nil session started ≡ true
    → unless_nil started (λ t. not (is_blank t)) ≡ true
    → unless_nil session (λ s. valid_safe_positive s && check started (λ t. not (is_blank t)))
      ≡ true
session_valid none started h f g = refl
session_valid (some s) none h f g = ground (arith, f)
session_valid (some s) (some t) h f g = ground (arith, h, g)

command_valid :
    (command : Option (List String))
    → unless_nil (clone_command command) (λ c. not (is_empty c)) ≡ true
command_valid none = refl
command_valid (some []) = refl
command_valid (some (c ∷ cs)) = refl

-- What validateProcessRecord accepts passes the validation of the document once it is cloned.
pub valid_process-clone :
    (r : TrackedProcessRecord)
    → validate_process_record r ≡ true
    → valid_process (clone_process_record r) ≡ true
unfolding validate_process_record clone_process_record valid_process
valid_process-clone r h =
    reorder (valid_safe_positive r.pid) (not (is_blank r.started_at))
      (unless_nil r.command (λ command. not (is_empty command)))
      (unless_nil r.group_id valid_safe_positive) (unless_nil r.session_id valid_safe_positive)
      (same_nil r.session_id r.session_started_at)
      (unless_nil r.session_started_at (λ started. not (is_blank started)))
      (unless_nil r.terminal_id (λ terminal. not (is_blank terminal || str_eq terminal "??"))) _ _ h
      (session_valid r.session_id r.session_started_at) (command_valid r.command)

pub valid_processes-add :
    (ps : List TrackedProcessRecord) (r : TrackedProcessRecord)
    → validate_process_record r ≡ true
    → is_tracked r.pid ps ≡ false
    → valid_processes [] ps ≡ true
    → valid_processes [] (ps ++ (clone_process_record r ∷ [])) ≡ true
unfolding clone_process_record
valid_processes-add ps r v free h =
    valid_processes-append [] ps (clone_process_record r) h (valid_process-clone r v) refl free

-- appendRetainedProcess changes the processes alone, to a valid list if the process is valid.
retain_among-valid :
    (r : TrackedProcessRecord) (all ps : List TrackedProcessRecord) {qs : List TrackedProcessRecord}
    → retain_among r all ps ≡ ok qs
    → valid_process r ≡ true
    → valid_processes [] all ≡ true
    → (is_tracked r.pid ps ≡ false → is_tracked r.pid all ≡ false)
    → valid_processes [] qs ≡ true
retain_among-valid r all [] e v h rest =
    ground (arith, valid_processes-append [] all r h v refl (rest refl))
retain_among-valid r all (p ∷ ps) e v h rest = elim (Bool-cases (eq_ℤ p.pid r.pid)) [
  | inl same ↦ ground (arith, same)
  | inr other ↦
      retain_among-valid r all ps (ground (arith, other)) v h
        (λ free. rest (ground (arith, other, free)))
]

pub append_retained_process-eq :
    (retained : Option TrackedProcessRecord) (w : WorkspaceRecord) {kept : WorkspaceRecord}
    → append_retained_process retained w ≡ ok kept
    → (ps : List TrackedProcessRecord) × (kept ≡ record w { processes = ps })
      × (unless_nil retained valid_process ≡ true
          → valid_processes [] w.processes ≡ true
          → valid_processes [] ps ≡ true)
      × (is_nil retained ≡ true → ps ≡ w.processes)
unfolding append_retained_process
append_retained_process-eq none w done = (w.processes, ground arith, λ r v. v, λ r. refl)
append_retained_process-eq (some r) w done =
    elim (Result-cases (retain_among r w.processes w.processes)) [
      | inl (qs, fine) ↦ (
        qs,
        ground (arith, fine),
        λ v h. retain_among-valid r w.processes w.processes fine v h (λ free. free),
        λ absurdity. cc,
      )
      | inr (x, refused) ↦ ground (arith, refused)
    ]
