-- ===== src/Examples/Daemons.antt =====
-- The daemon and its restart on concrete data.
use alarm_daemon.Base.{◌≡◌, ◌≢◌, ◌⊎◌, refl, ap, false, none, some, List, [], ◌∷◌, arith, ok, err}
use alarm_daemon.Base.Bytes.{ascii}
use alarm_daemon.Base.Utf8.{is_utf8}
use alarm_daemon.Base.Int.{pos}
use alarm_daemon.State.{
  State, armed, disarmed, state_armed, state_disarmed, to_persisted, changed, no_change,
}
use alarm_daemon.Persistence.Codec.{commit}
use alarm_daemon.Persistence.Memory.{
  memory, memory-IsTransactional, memory_sound, refusing, refusing-IsTransactional,
}
use alarm_daemon.Persistence.Store.{Store, save, load, lock_db, parent, evaluate_recovery}
use alarm_daemon.Persistence.Durable.{stored}
use alarm_daemon.Daemon.{AlarmDaemon, new_persistent, persist, transition_to}
use alarm_daemon.Daemon.Laws.{transition_to_outcome, transition_to_lost}
use alarm_daemon.Daemon.Restart.{Request, arms, disarms, serve_all, Resumes, restart}
use alarm_daemon.Examples.{new_store, bell, idle_daemon}

abbrev pub bell_armed : State
bell_armed = state_armed (some bell) (some (pos 1000))

abbrev pub first_daemon : AlarmDaemon memory
first_daemon = record { state = state_disarmed; persistence = some new_store }

first_start :
    new_persistent memory (some 5) new_store
    ≡ ok (first_daemon, record { missed_while_down = false })
unfolding new_persistent load state_disarmed evaluate_recovery
first_start = refl

abbrev requests : List Request
requests = arms bell (some (pos 1000)) ∷ disarms ∷ arms bell (some (pos 2000)) ∷ []

restart_example :
    Resumes memory memory-IsTransactional memory_sound
      (some 1500)
      (serve_all memory requests first_daemon).state
      (serve_all memory requests first_daemon).persistence
restart_example =
    restart memory memory-IsTransactional memory_sound (some 5) (some 1500) new_store first_daemon
      (record { missed_while_down = false }) requests tt first_start
      (unfold is_utf8 in
        (((refl, omega arith), omega arith), (tt, (((refl, omega arith), omega arith), tt))))

transition_to_outcome_example :
    let (d', t) = transition_to memory bell_armed idle_daemon in
    (d'.state ≡ bell_armed)
    × (((idle_daemon.state ≡ bell_armed) × (t ≡ no_change) × (d' ≡ idle_daemon))
        ⊎ ((idle_daemon.state ≢ bell_armed)
            × (t ≡ changed idle_daemon.state.status bell_armed.status)
            × (d'.persistence ≡ persist memory (to_persisted bell_armed) idle_daemon.persistence)))
transition_to_outcome_example = transition_to_outcome memory bell_armed idle_daemon

-- The daemon above, over the disk that refuses each commit.
abbrev full_store : Store refusing
full_store = record { path = ascii "alarm.redb"; db = none; world = λ f. none }

abbrev full_daemon : AlarmDaemon refusing
full_daemon = record { state = state_disarmed; persistence = some full_store }

refused :
    save refusing (to_persisted bell_armed) full_store
    ≡ ((save refusing (to_persisted bell_armed) full_store).0, err (commit "disk full"))
unfolding save lock_db parent
refused = refl

not_armed : state_disarmed ≢ bell_armed
unfolding state_disarmed state_armed
not_armed e = let f : disarmed ≡ armed = ap (λ s. s.status) e in ground arith

transition_to_lost_example :
    let (d', r) = transition_to refusing bell_armed full_daemon in
    let t = (save refusing (to_persisted bell_armed) full_store).0 in
    (r ≡ changed full_daemon.state.status bell_armed.status)
    × (d'.state ≡ bell_armed)
    × (d'.persistence ≡ some t)
    × (stored refusing refusing-IsTransactional t
        ≡ stored refusing refusing-IsTransactional full_store)
    × (transition_to refusing bell_armed d' ≡ (d', no_change))
transition_to_lost_example =
    transition_to_lost refusing refusing-IsTransactional bell_armed full_daemon full_store
      (save refusing (to_persisted bell_armed) full_store).0 (commit "disk full") refl tt not_armed
      refused
