-- ===== src/Trainer/TaskManager/Tests.antt =====
-- A manager with one worker on concrete schedules.
use agent_rl.Common.{nat_eq, ℕ, ◌≡◌, ◌≢◌, refl, true, false, none, [], ◌∷◌, arith}
use agent_rl.Common.Int.{pos, negsuc, ◌+ℤ◌, ◌-ℤ◌}
use agent_rl.Trainer.Buffer.{Item, add, get_items, stride}
use agent_rl.Trainer.TaskManager.{
  new_manager, put_nowait, worker_end, result, get, start, stop_begin,
}
use agent_rl.Trainer.TaskManager.Steps.{
  System, Steps, init, put_at_once, work_start, work_take, work_done, consume, start_call,
  stop_call, here, next,
}
use agent_rl.Trainer.TaskManager.Accounting.{pending_accounts, stop_hangs, in_flight}

abbrev item : Item
item = record { group_id = none; content = "a" }

abbrev created : System
created = record (init 2 4 1 1) {
  manager = record (new_manager 2 4 1 1) { started = true };
  fresh = 1;
}

-- Its worker waits for an item.
abbrev started : System
started = record created { fresh = 0; idle = 1 }

abbrev queued : System
queued = record started {
  manager = record started.manager { queue = item ∷ []; pending_count = pos 1 };
}

abbrev taken : System
taken = record started {
  manager = record started.manager { pending_count = pos 1 };
  idle = 0;
  running = item ∷ [];
}

abbrev processed : System
processed = record started {
  manager = record started.manager {
    buffer = record started.manager.buffer { queue = item ∷ []; put_signal = true };
  };
}

abbrev delivered_one : System
delivered_one = record started {
  manager = record started.manager {
    buffer = record started.manager.buffer { put_signal = true; get_signal = true };
    pending_count = negsuc 0;
  };
  delivered = 1;
}

-- One item is put, processed and taken, and the count of pending items is then -1.
round_trip : Steps true (init 2 4 1 1) delivered_one
unfolding new_manager start put_nowait worker_end get add get_items stride ◌+ℤ◌ ◌-ℤ◌
round_trip =
    next {t = processed}
      (next {t = taken}
        (next {t = queued}
          (next {t = started}
            (next {t = created} (next here (start_call refl)) (work_start 0 refl refl))
            (put_at_once item queued.manager refl refl refl))
          (work_take item [] 0 refl refl refl))
        (work_done item [] [] (result item) processed.manager refl refl refl))
      (consume 1 1 (item ∷ []) delivered_one.manager refl refl)

pending_accounts_example :
    delivered_one.manager.pending_count
    ≡ pos (in_flight delivered_one) -ℤ pos delivered_one.delivered
pending_accounts_example = pending_accounts 2 4 1 1 round_trip

-- `stop` once the worker waits
stopping : Steps false started (record started { manager = stop_begin started.manager })
stopping = next here (stop_call refl)

stop_hangs_example : ◌≢◌ {A = ℕ} 1 0
unfolding new_manager
stop_hangs_example = stop_hangs {s = started} (omega arith) refl refl stopping

-- An item that `put_nowait` refuses stays counted.
refused :
    put_nowait item (record queued.manager { queue_maxsize = 1 })
    ≡ (false, record queued.manager { queue_maxsize = 1; pending_count = pos 2 })
unfolding put_nowait new_manager ◌+ℤ◌
refused = refl
