-- ===== src/Examples/Client.antt =====
-- The client on a bus that hands each call to a control object.
use alarm_daemon.Base.{
  ◌≡◌, refl, some, String, if◌then◌else◌, Result, ok, err, map_err, inr, List, [], ◌∷◌, false, none,
}
use alarm_daemon.Base.Bytes.{Bytes, ascii, bytes_eq}
use alarm_daemon.State.{is_armed, state_disarmed}
use alarm_daemon.Audio.Player.{fake_audio}
use alarm_daemon.Persistence.Memory.{memory}
use alarm_daemon.Control.{BusError, Control, new_control}
use alarm_daemon.Control.Methods
use alarm_daemon.Client.{
  Body, empty, text, number, Kind, of_unit, of_bool, of_string, of_strings, Returns, Zbus, Session,
  from_connection,
}
use alarm_daemon.Client.Served.{
  Method, arms, disarms, dismisses, snoozes, asks_status, asks_sound, asks_sounds, kind_of, name_of,
  body_of, answer, Serves,
}
use alarm_daemon.Client.Calls.{client_run, Hears}
use alarm_daemon.Client.Refines.{client_run-Hears}
use alarm_daemon.Control.{trigger_delay_of}
use alarm_daemon.Control.Spec.{Alarm}
use alarm_daemon.Control.Requests.{Represents}
use alarm_daemon.Examples.{bell, files, library, idle_control}

abbrev Served : Type 0
Served = Control memory fake_audio

abbrev told : {X : Type 0} → Served × Result BusError X → Served × Result String X
told (c, ok x) = (c, ok x)
told (c, err e) = (c, err "org.freedesktop.DBus.Error.Failed")

abbrev run_unit : Bytes → Body → Served → Served × Result String (Unit {0})
run_unit method (text id) c = told (Methods.arm memory fake_audio files (some 5) id c)
run_unit method (number n) c = told (Methods.snooze memory fake_audio files (some 5) n c)
run_unit method empty c =
    if bytes_eq method (ascii "Disarm")
    then told (Methods.disarm memory fake_audio c)
    else told (Methods.dismiss memory fake_audio c)

abbrev run_method : (k : Kind) → Bytes → Body → Served → Served × Result String (Returns k)
run_method of_unit method body c = run_unit method body c
run_method of_bool method body c = (c, ok (Methods.status memory fake_audio c))
run_method of_string method body c = (c, ok (Methods.current_sound memory fake_audio c))
run_method of_strings method body c = told (c, Methods.list_sounds memory fake_audio files c)

abbrev direct : Zbus
direct = record {
  World = Served;
  Connection = Unit {0};
  Proxy = Unit {0};
  session = λ c. (c, ok tt);
  system = λ c. (c, ok tt);
  new_proxy = λ _ b o i c. (c, ok tt);
  call = λ k _ method body c. run_method k method body c;
}

told_as :
    {X : Type 0} (x : Served × Result BusError X)
    → ((told x).0 ≡ x.0) × ((told x).1 ≡ map_err x.1 (λ _. "org.freedesktop.DBus.Error.Failed"))
told_as (c, ok x) = (refl, refl)
told_as (c, err e) = (refl, refl)

delivers :
    (m : Method) (c : Served)
    → let x = run_method (kind_of m) (name_of m) (body_of m) c in
      let y = answer memory fake_audio m files (some 5) c in
      (x.0 ≡ y.0) × (x.1 ≡ map_err y.1 (λ _. "org.freedesktop.DBus.Error.Failed"))
unfolding bytes_eq
delivers (arms id) c = told_as (Methods.arm memory fake_audio files (some 5) id c)
delivers disarms c = told_as (Methods.disarm memory fake_audio c)
delivers dismisses c = told_as (Methods.dismiss memory fake_audio c)
delivers (snoozes n) c = told_as (Methods.snooze memory fake_audio files (some 5) n c)
delivers asks_status c = (refl, refl)
delivers asks_sound c = (refl, refl)
delivers asks_sounds c = told_as (c, Methods.list_sounds memory fake_audio files c)

abbrev direct-Serves : Serves memory fake_audio direct
direct-Serves = record {
  control = λ c. c;
  files = λ c. files;
  clock = λ c. some 5;
  refused = λ e. "org.freedesktop.DBus.Error.Failed";
  Ours = λ p. Unit {0};
  made = λ c w p e. tt;
  unmoved = λ c b o i w. refl;
  delivered = λ m p w o. inr (delivers m w);
}

abbrev fresh : Session direct
fresh = record { client = from_connection direct tt; world = idle_control }

abbrev off : Alarm
off = record { is_on = false; sound = none; waits_for = none; announced = [] }

fresh-Represents : Represents memory fake_audio library 3000 off (direct-Serves.control fresh.world)
unfolding new_control trigger_delay_of is_armed state_disarmed
fresh-Represents = record {
  is_on = refl;
  sound = refl;
  pending = refl;
  signals = refl;
  sounds = refl;
  delay = refl;
}

abbrev asked : List Method
asked = arms bell ∷ asks_status ∷ snoozes 0 ∷ asks_sound ∷ disarms ∷ asks_sounds ∷ []

client_run-Hears_example :
    let (t, replies) = client_run direct asked fresh in
    (b : Alarm) × Represents memory fake_audio library 3000 b (direct-Serves.control t.world)
    × Hears library 3000 direct-Serves.refused off asked replies b
client_run-Hears_example =
    client_run-Hears memory fake_audio direct direct-Serves library 3000 asked fresh off tt
      fresh-Represents
