-- ===== src/Client/Calls.antt =====
-- The calls of one client of alarm-daemon-client/src/client.rs, one after the other, and what it
-- may hear of an alarm of Control/Spec over a bus that may lose calls and answers.
use alarm_daemon.Base.{ℕ, Bool, Option, none, some, List, [], ◌∷◌, String, Result, ok, err, map_err}
use alarm_daemon.Base.Bytes.{Bytes}
use alarm_daemon.Sounds.Library.{FileSystem, SoundLibrary}
use alarm_daemon.Control.{BusError}
use alarm_daemon.Control.Spec.{
  Alarm, Call, Answer, done, has_sound, lists, rings, nothing, spec_call,
}
use alarm_daemon.Control.Spec
use alarm_daemon.Client.{
  ClientError, dbus, Zbus, Session, list_sounds, arm, disarm, snooze, dismiss, status,
  current_sound,
}
use alarm_daemon.Client.Served.{
  Method, arms, disarms, dismisses, snoozes, asks_status, asks_sound, asks_sounds,
}

-- What a method of the client returns.
pub data Reply : Type 0 where
  finished : Result ClientError (Unit {0}) → Reply
  armed : Result ClientError Bool → Reply
  sound : Result ClientError (Option Bytes) → Reply
  sounds : Result ClientError (List Bytes) → Reply

abbrev with_reply : {Z : Zbus} {X : Type 0} → (X → Reply) → Session Z × X → Session Z × Reply
with_reply f (s, r) = (s, f r)

module _ (Z : Zbus) where
  unfoldable pub client_call : Method → Session Z → Session Z × Reply
  unfolding arm disarm dismiss snooze status current_sound list_sounds
  client_call (arms id) s = with_reply finished (arm Z id s)
  client_call disarms s = with_reply finished (disarm Z s)
  client_call dismisses s = with_reply finished (dismiss Z s)
  client_call (snoozes n) s = with_reply finished (snooze Z n s)
  client_call asks_status s = with_reply armed (status Z s)
  client_call asks_sound s = with_reply sound (current_sound Z s)
  client_call asks_sounds s = with_reply sounds (list_sounds Z s)

  unfoldable pub client_run : List Method → Session Z → Session Z × List Reply
  unfolding client_call
  client_run [] s = (s, [])
  client_run (m ∷ ms) s =
      let (t, x) = client_call m s in let (u, xs) = client_run ms t in (u, x ∷ xs)

abbrev pub call_of : Method → Call
call_of (arms id) = Spec.arms id
call_of disarms = Spec.disarms
call_of dismisses = Spec.dismisses
call_of (snoozes n) = Spec.snoozes n
call_of asks_status = Spec.asks_status
call_of asks_sound = Spec.asks_sound
call_of asks_sounds = Spec.asks_sounds

-- The reply of a call that failed on the way.
abbrev pub failed : Method → ClientError → Reply
failed asks_status e = armed (err e)
failed asks_sound e = sound (err e)
failed asks_sounds e = sounds (err e)
failed _ e = finished (err e)

-- The empty string is no sound.
abbrev pub named : Bytes → Option Bytes
named [] = none
named (b ∷ id) = some (b ∷ id)

-- The reply that hands on an answer of the alarm, a refusal as its text.
abbrev pub heard : (BusError → String) → Answer → Reply
heard refused (done r) = finished (map_err r (λ e. dbus (refused e)))
heard refused (Spec.is_on b) = armed (ok b)
heard refused (has_sound id) = sound (ok (named id))
heard refused (lists r) = sounds (map_err r (λ e. dbus (refused e)))
heard refused (rings path) = finished (ok tt)
heard refused nothing = finished (ok tt)

module _ (library : SoundLibrary) (trigger_delay : ℕ) (refused : BusError → String) where
  -- What is heard of an alarm, call by call, and the alarm that is left: each call is lost before
  -- the alarm has it, or its answer is lost, or the answer is heard.
  pub data Hears : Alarm → List Method → List Reply → Alarm → Type 0 where
    over : (a : Alarm) → Hears a [] [] a
    lost :
        (a b : Alarm) (m : Method) (ms : List Method) (e : ClientError) (xs : List Reply)
        → Hears a ms xs b
        → Hears a (m ∷ ms) (failed m e ∷ xs) b
    unheard :
        (a b : Alarm) (files : FileSystem) (m : Method) (ms : List Method) (e : ClientError)
        (xs : List Reply)
        → Hears (spec_call library trigger_delay files (call_of m) a).0 ms xs b
        → Hears a (m ∷ ms) (failed m e ∷ xs) b
    answered :
        (a b : Alarm) (files : FileSystem) (m : Method) (ms : List Method) (xs : List Reply)
        → Hears (spec_call library trigger_delay files (call_of m) a).0 ms xs b
        → Hears a
            (m ∷ ms)
            (heard refused (spec_call library trigger_delay files (call_of m) a).1 ∷ xs)
            b
