-- ===== src/Examples/Calls.antt =====
-- The calls of the bus on concrete data.
use alarm_daemon.Base.{refl, false, none, some, [], inr}
use alarm_daemon.State.{state_disarmed, is_armed}
use alarm_daemon.Audio.Player.{fake_audio}
use alarm_daemon.Persistence.Memory.{memory}
use alarm_daemon.Control.{Control}
use alarm_daemon.Control.Methods.{arm}
use alarm_daemon.Control.Runs.{
  armed_by, Steps, done, next, IsSound, new_control-IsSound, steps-IsSound,
}
use alarm_daemon.Examples.{bell, library, files, idle_daemon, idle_control}

abbrev armed_control : Control memory fake_audio
armed_control = (arm memory fake_audio files (some 5) bell idle_control).0

idle-IsSound : IsSound memory fake_audio false idle_control
unfolding is_armed state_disarmed
idle-IsSound = new_control-IsSound memory fake_audio idle_daemon library [] none (inr refl)

abbrev ring : Steps memory fake_audio idle_control armed_control
ring =
    next idle_control armed_control armed_control (armed_by files (some 5) bell idle_control)
      (done armed_control)

steps-IsSound_example : IsSound memory fake_audio false armed_control
steps-IsSound_example =
    steps-IsSound memory fake_audio false idle_control armed_control ring idle-IsSound
