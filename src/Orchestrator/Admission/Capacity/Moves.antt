-- ===== src/Orchestrator/Admission/Capacity/Moves.antt =====
-- The steps of the tasks as steps of the pool (backend/app/orchestrator/admission.py).
use concierge_agent.Prelude.{
  ℕ, suc, ◌-◌, ◌<◌, ◌≡◌, refl, sym, ap, ◌∙◌, inl, inr, Bool, true, false, ◌∷◌, arith, length, IsIn,
  ==_refl, nat_eq,
}
use concierge_agent.Prelude.Clock.{Instant}
use concierge_agent.Ambient.Events.{Uuid}
use concierge_agent.Orchestrator.Admission.{
  Semaphore, set_accepting, update, add, discard, abandon_slot, hold_slot, leave_slot,
}
use concierge_agent.Orchestrator.Admission.Slots.{
  Task, System, runs, without, IsIn-runs, runs-without, IsIn-runs_without, without-IsUnique,
  length-without, length-runs, add_absent,
}
use concierge_agent.Orchestrator.Admission.Capacity.{
  beginning, giving_up, ending, nothing, begins, gives_up, ends, stays, unused, in_use, Inv,
  All-without, length-running, length-queued, Refines,
}
use concierge_agent.Orchestrator.Admission.Capacity.Places.{IsBuilt-waiting, IsBuilt-holding}

module _ (n : ℕ) (x : System) (h : Inv n x) (run : Uuid) (s : Semaphore) where
  abbrev acquired : System
  acquired = record {
    state = hold_slot run s x.state;
    waiting = without run x.waiting;
    holding = (run, s) ∷ x.holding;
  }

  abbrev cancelled : System
  cancelled = record x { state = abandon_slot run x.state; waiting = without run x.waiting }

  abbrev left : System
  left = record x { state = leave_slot run s x.state; holding = without run x.holding }

  queued_without : discard run x.state.queued ≡ runs (without run x.waiting)
  queued_without = ap (discard run) h.queued ∙ runs-without run x.waiting

  shorter_queue :
      IsIn (run, s) x.waiting → suc (length (runs (without run x.waiting))) ≡ length x.state.queued
  shorter_queue at = omega (
    arith,
    length-runs (without run x.waiting),
    length-without (run, s) x.waiting h.unique_waiting at,
    length-queued n x h,
  )

  pub acquires-Refines :
      IsIn (run, s) x.waiting → 0 < x.state.free s → Refines n x acquired beginning
  unfolding hold_slot
  acquires-Refines at some_left =
      let (here, fits, w, held, room) = IsBuilt-waiting n x run s h.built at in
      let absent = h.apart run (IsIn-runs (run, s) x.waiting at) in
      let run_set : add run x.state.running ≡ run ∷ runs x.holding =
        ap (add run) h.running ∙ add_absent run x.holding absent in
      let free_now : update x.state.free s (x.state.free s - 1) s ≡ x.state.free s - 1 =
        rw (==_refl s) in
      (
        record {
          running = run_set;
          queued = queued_without;
          unique_waiting = without-IsUnique run x.waiting h.unique_waiting;
          unique_holding = (absent, h.unique_holding);
          apart = λ other queues holds.
              let (old, differs) = IsIn-runs_without run other x.waiting queues in
              elim holds [ inl e ↦ differs e | inr more ↦ h.apart other old more ];
          built =
              in_use s here fits (All-without (λ (t : Task). t.1 ≡ s) run x.waiting w) (refl, held)
                (omega (arith, free_now, room, some_left));
        },
        begins (omega (arith, length-running n x h, room, some_left))
            (ap length run_set ∙ ap suc (ap length (sym h.running)))
            (ap suc (ap length queued_without) ∙ shorter_queue at),
      )

  pub cancels-Refines : IsIn (run, s) x.waiting → Refines n x cancelled giving_up
  unfolding abandon_slot
  cancels-Refines at =
      let (here, fits, w, held, room) = IsBuilt-waiting n x run s h.built at in
      (
        record {
          running = h.running;
          queued = queued_without;
          unique_waiting = without-IsUnique run x.waiting h.unique_waiting;
          unique_holding = h.unique_holding;
          apart = λ other queues. h.apart other (IsIn-runs_without run other x.waiting queues).0;
          built =
              in_use s here fits (All-without (λ (t : Task). t.1 ≡ s) run x.waiting w) held room;
        },
        gives_up refl (ap suc (ap length queued_without) ∙ shorter_queue at),
      )

  pub leaves-Refines : IsIn (run, s) x.holding → Refines n x left ending
  unfolding leave_slot
  leaves-Refines at =
      let (here, fits, w, held, room) = IsBuilt-holding n x run s h.built at in
      let shorter = length-without (run, s) x.holding h.unique_holding at in
      let run_set : discard run x.state.running ≡ runs (without run x.holding) =
        ap (discard run) h.running ∙ runs-without run x.holding in
      let free_now : update x.state.free s (suc (x.state.free s)) s ≡ suc (x.state.free s) =
        rw (==_refl s) in
      (
        record {
          running = run_set;
          queued = h.queued;
          unique_waiting = h.unique_waiting;
          unique_holding = without-IsUnique run x.holding h.unique_holding;
          apart = λ other queues holds.
              h.apart other queues (IsIn-runs_without run other x.holding holds).0;
          built =
              in_use s here fits w (All-without (λ (t : Task). t.1 ≡ s) run x.holding held)
                (omega (arith, free_now, room, shorter));
        },
        ends
            (omega (
              arith,
              ap length run_set,
              length-runs (without run x.holding),
              shorter,
              length-running n x h,
            ))
            refl,
      )

pub switches-Refines :
    (n : ℕ) (x : System)
    → Inv n x
    → (value : Bool) (now : Instant)
    → Refines n x (record x { state = set_accepting value now x.state }) nothing
unfolding set_accepting
switches-Refines n x h true now = (
  record {
    running = h.running;
    queued = h.queued;
    unique_waiting = h.unique_waiting;
    unique_holding = h.unique_holding;
    apart = h.apart;
    built = elim h.built [ unused a w d ↦ unused a w d | in_use s a f w d r ↦ in_use s a f w d r ];
  },
  stays refl refl,
)
switches-Refines n x h false now = (
  record {
    running = h.running;
    queued = h.queued;
    unique_waiting = h.unique_waiting;
    unique_holding = h.unique_holding;
    apart = h.apart;
    built = elim h.built [ unused a w d ↦ unused a w d | in_use s a f w d r ↦ in_use s a f w d r ];
  },
  stays refl refl,
)
