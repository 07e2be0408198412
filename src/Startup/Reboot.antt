-- ===== src/Startup/Reboot.antt =====
-- The process of alarm-daemon/src/main.rs started anew on the file that the process before it
-- wrote.
use alarm_daemon.Base.{ℕ, ◌≡◌, refl, ap, ◌∙◌, Option, none, some, List, [], ok, All}
use alarm_daemon.State.{State, StartupRecovery, to_persisted, is_armed}
use alarm_daemon.Persistence.Redb.{Redb, IsTransactional}
use alarm_daemon.Persistence.Store.{Store, evaluate_recovery, from_path}
use alarm_daemon.Daemon.{AlarmDaemon, new_persistent}
use alarm_daemon.Daemon.Restart.{OnDisk, OnDisk-Resumes}
use alarm_daemon.Audio.Player.{AlarmAudio}
use alarm_daemon.Sounds.Library.{SoundLibrary, ensure_dirs}
use alarm_daemon.Control.{Control, new_control, trigger_delay_of}
use alarm_daemon.Control.Spec.{Alarm, Request, spec_run}
use alarm_daemon.Control.Requests.{answer_run, Represents}
use alarm_daemon.Control.Refines.{answer_run-spec_run}
use alarm_daemon.Control.Kept.{AsksFit, IsKept, answer_run-IsKept}
use alarm_daemon.Config.{BusKind, parse}
use alarm_daemon.Startup.{
  Environment, db_path_of, sounds_of, Bus, System, Ready, open_daemon, connect, start,
}

-- The alarm after a restart: what it waited for is forgotten.
abbrev pub resumed : Alarm → Alarm
resumed a = record { is_on = a.is_on; sound = a.sound; waits_for = none; announced = [] }

module _ (R : Redb) (A : AlarmAudio) (B : Bus R A) (env : Environment) (system : System R A) where
  -- The bus is named, the directories can be made, the output runs, and the bus takes the object.
  pub record IsServiceable (kind : BusKind) : Type 0 where
    pub named : parse env.bus ≡ ok kind
    pub dirs : ensure_dirs system.files (sounds_of env) ≡ ok tt
    pub player : A.Player
    pub spawned : system.output ≡ ok player
    pub connected :
        (control : Control R A)
        → (connection : B.Connection) × (connect R A B kind control ≡ ok connection)

  -- The process gets to serve the bus, with the object that its daemon makes.
  start-ok :
      (kind : BusKind) (h : IsServiceable kind) (d : AlarmDaemon R) (v : StartupRecovery)
      → new_persistent R system.clock (from_path R (db_path_of env kind) system.world) ≡ ok (d, v)
      → (r : Ready R A B) × (start R A B env system ≡ ok r)
        × (r.control ≡ new_control R A d (sounds_of env) h.player env.trigger_delay_ms)
        × (r.recovery ≡ v)
  unfolding start open_daemon
  start-ok kind h d v e =
      let control = new_control R A d (sounds_of env) h.player env.trigger_delay_ms in
      let (connection, f) = h.connected control in
      (
        record { kind = kind; recovery = v; control = control; connection = connection },
        rw (h.named, e, h.dirs, h.spawned, f) refl,
        refl,
        refl,
      )

  new_control-Represents :
      (a : Alarm) (state : State) (d : AlarmDaemon R) (player : A.Player)
      → d.state ≡ state
      → is_armed state.status ≡ a.is_on
      → state.current_sound ≡ a.sound
      → Represents R A
          (sounds_of env)
          (trigger_delay_of env.trigger_delay_ms)
          (resumed a)
          (new_control R A d (sounds_of env) player env.trigger_delay_ms)
  unfolding new_control
  new_control-Represents a state d player same e f = record {
    is_on = ap (λ s. is_armed s.status) same ∙ e;
    sound = ap (λ s. s.current_sound) same ∙ f;
    pending = refl;
    signals = refl;
    sounds = refl;
    delay = refl;
  }

  -- The process starts on the file of a daemon that has ended, in the world that it left.
  abbrev pub StartsOn : Option (Store R) → BusKind → Type 0
  StartsOn none kind = ⊥
  StartsOn (some s) kind = (db_path_of env kind ≡ s.path) × (system.world ≡ s.world)

  module _ (T : IsTransactional R) (sound : ¬ T.Faulty) where
    daemon_resumes :
        (kind : BusKind) (state : State) (p : Option (Store R))
        → OnDisk R T sound state p
        → StartsOn p kind
        → (d : AlarmDaemon R) × (new_persistent R system.clock
              (from_path R (db_path_of env kind) system.world)
            ≡ ok (d, evaluate_recovery system.clock (to_persisted state)))
          × (d.state ≡ state)
    daemon_resumes kind state none on h = absurd h
    daemon_resumes kind state (some s) on h =
        rw (h.0, h.1) (OnDisk-Resumes R T sound system.clock state (some s) on)

    -- Over a disk that does not fail, let a control object that represents an alarm, with its state
    -- on the disk, answer any requests that arm sounds which can be stored. A process that is then
    -- started on the file, and that its system can serve, comes up and represents the alarm that
    -- the requests left, on or off and with its sound, but waiting for nothing: whatever it waited
    -- for is forgotten, and its recovery flag is that of the state left.
    pub start-resumes :
        (library : SoundLibrary) (trigger_delay : ℕ) (requests : List Request) (a : Alarm)
        (c : Control R A) (kind : BusKind)
        → Represents R A library trigger_delay a c
        → IsKept R T sound A c.daemon
        → All AsksFit requests
        → StartsOn (answer_run R A requests c).0.daemon.persistence kind
        → IsServiceable kind
        → (let c' = (answer_run R A requests c).0 in
            (r : Ready R A B) × (start R A B env system ≡ ok r)
            × Represents R A
                (sounds_of env)
                (trigger_delay_of env.trigger_delay_ms)
                (resumed (spec_run library trigger_delay requests a).0)
                r.control
            × (r.recovery ≡ evaluate_recovery system.clock (to_persisted c'.daemon.state)))
    start-resumes library trigger_delay requests a c kind h kept fits on able =
        let c' = (answer_run R A requests c).0 in
        let (h', _) = answer_run-spec_run R A library trigger_delay requests a c h in
        let kept' = answer_run-IsKept R T sound A requests c fits kept in
        let (d, e, same) =
          daemon_resumes kind c'.daemon.state c'.daemon.persistence kept'.on_disk on in
        let (r, f, g, v) = start-ok kind able d _ e in
        (
          r,
          f,
          rw g (
              new_control-Represents (spec_run library trigger_delay requests a).0 c'.daemon.state d
                able.player same h'.is_on h'.sound),
          v,
        )
