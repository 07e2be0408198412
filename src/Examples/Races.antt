-- ===== src/Examples/Races.antt =====
-- Overlapping transitions and calls on concrete data.
use alarm_daemon.Base.{
  ◌≡◌, ◌≢◌, refl, ap, Bool, true, false, some, List, [], ◌∷◌, ◌++◌, arith, inl, ◌⊎◌,
}
use alarm_daemon.Base.Bytes.{ascii}
use alarm_daemon.Base.Utf8.{is_utf8}
use alarm_daemon.State.{armed, disarmed, state_armed, state_disarmed, to_persisted, state_eq}
use alarm_daemon.Persistence.Laws.{IsStorable}
use alarm_daemon.Persistence.Memory.{memory, memory-IsTransactional, memory_sound, memory_empty}
use alarm_daemon.Persistence.Durable.{answer}
use alarm_daemon.Persistence.Saves.{Holds}
use alarm_daemon.Daemon.Races.{
  Shared, swap, write, Steps, swapped, written, done, next, InOrder-Holds, overlap_loses,
}
use alarm_daemon.Audio.Player.{fake_audio}
use alarm_daemon.Control.{Control, new_control, fire_at}
use alarm_daemon.Control.Methods.{disarm}
use alarm_daemon.Control.Races.{
  Plan, to_cancel, to_cancel_for_disarm, returned, turns, begin, disarmed_within,
  disarmed_alarm_sleeps,
}
use alarm_daemon.Control.Runs
use alarm_daemon.Control.Overlaps.Lost.{both_cancelled, IsOutOfReach, lost_for_good}
use alarm_daemon.Control.Calls.{OneTrigger}
use alarm_daemon.Examples.{new_store, bell, idle_control}
use alarm_daemon.Examples.Daemons.{bell_armed}

abbrev quiet : Shared memory
quiet = record { state = state_disarmed; store = new_store; unwritten = [] }

disarmed-ne-armed : state_disarmed ≢ bell_armed
unfolding state_disarmed state_armed
disarmed-ne-armed e = let f : disarmed ≡ armed = ap (λ s. s.status) e in ground arith

armed-ne-disarmed : bell_armed ≢ state_disarmed
unfolding state_disarmed state_armed
armed-ne-disarmed e = let f : armed ≡ disarmed = ap (λ s. s.status) e in ground arith

armed-IsStorable : IsStorable (to_persisted bell_armed)
unfolding to_persisted state_armed is_utf8
armed-IsStorable = record { in_range = omega arith; sound_fits = (refl, omega arith) }

disarmed-IsStorable : IsStorable (to_persisted state_disarmed)
unfolding to_persisted state_disarmed
disarmed-IsStorable = record { in_range = tt; sound_fits = tt }

quiet-Holds : Holds memory memory-IsTransactional (to_persisted quiet.state) quiet.store
unfolding to_persisted state_disarmed
quiet-Holds =
    (tt, ap (answer memory memory-IsTransactional) (memory_empty (ascii "alarm.redb") "state" "v1"))

abbrev swapped_once : Shared memory
swapped_once = (swap memory bell_armed quiet).0

abbrev written_once : Shared memory
written_once = write memory (to_persisted bell_armed) ([] ++ []) swapped_once

one_swapped : swapped_once.unwritten ≡ [] ++ to_persisted bell_armed ∷ []
unfolding swap state_eq state_disarmed state_armed
one_swapped = refl

abbrev in_order : Steps memory quiet written_once
in_order = next quiet swapped_once written_once (swapped bell_armed quiet armed-IsStorable) (
    next swapped_once written_once written_once
      (written (to_persisted bell_armed) [] [] swapped_once one_swapped) (done written_once))

InOrder-Holds_example :
    Holds memory memory-IsTransactional (to_persisted written_once.state) written_once.store
unfolding write
InOrder-Holds_example =
    InOrder-Holds memory memory-IsTransactional memory_sound quiet written_once in_order
      (tt, (refl, tt)) refl quiet-Holds refl

overlap_loses_example :
    (e : Shared memory) × Steps memory quiet e
    × (e.unwritten ≡ [])
    × (e.state ≡ state_disarmed)
    × Holds memory memory-IsTransactional (to_persisted bell_armed) e.store
overlap_loses_example =
    overlap_loses memory memory-IsTransactional memory_sound quiet bell_armed state_disarmed refl tt
      armed-IsStorable disarmed-IsStorable disarmed-ne-armed armed-ne-disarmed

abbrev plan : Plan
plan = record {
  sound_id = bell;
  path = ascii "/s/bell.wav";
  delay_ms = 3000;
  fire_time = fire_at (some 5) 3000;
}

abbrev later_plan : Plan
later_plan = record {
  sound_id = bell;
  path = ascii "/s/bell.wav";
  delay_ms = 9000;
  fire_time = fire_at (some 5) 9000;
}

idle_alone : OneTrigger idle_control.trigger_task idle_control.tasks
unfolding new_control
idle_alone = inl refl

idle_disarmed : idle_control.daemon.state.status ≡ disarmed
unfolding new_control state_disarmed
idle_disarmed = refl

disarmed_alarm_sleeps_example :
    let s =
      turns memory fake_audio disarmed_within
        (begin memory fake_audio idle_control (to_cancel plan) to_cancel_for_disarm) in
    (s.first ≡ returned)
    × (s.second ≡ returned)
    × (s.control.daemon.state ≡ state_disarmed)
    × (s.control.tasks
        ≡ record { id = idle_control.next_task; sound_path = plan.path; delay_ms = plan.delay_ms }
          ∷ [])
    × (s.control.signals ≡ true ∷ false ∷ idle_control.signals)
disarmed_alarm_sleeps_example =
    disarmed_alarm_sleeps memory fake_audio idle_control plan idle_alone idle_disarmed

-- The turns of two calls of `arm` that both have cancelled, until both have returned.
abbrev side_by_side : List Bool
side_by_side = true ∷ false ∷ true ∷ true ∷ false ∷ false ∷ true ∷ false ∷ []

abbrev both_armed : Control memory fake_audio
both_armed =
    (turns memory fake_audio side_by_side
      (both_cancelled memory fake_audio idle_control plan later_plan 0)).control

abbrev told_off : Control memory fake_audio
told_off = (disarm memory fake_audio both_armed).0

abbrev then_disarmed : Runs.Steps memory fake_audio both_armed told_off
then_disarmed =
    Runs.next both_armed told_off told_off (Runs.disarmed_by both_armed) (Runs.done told_off)

lost_for_good_example :
    IsOutOfReach memory fake_audio plan then_disarmed
    ⊎ IsOutOfReach memory fake_audio later_plan then_disarmed
unfolding turns
lost_for_good_example =
    lost_for_good memory fake_audio idle_control plan later_plan 0 side_by_side told_off idle_alone
      (omega arith) refl refl then_disarmed
