-- ===== src/Client/Refines.antt =====
-- The client of alarm-daemon-client/src/client.rs, on a bus that serves the daemon's object, hears
-- the alarm of Control/Spec.
use alarm_daemon.Base.{
  ℕ, ◌≡◌, ◌⊎◌, refl, ap, ◌∙◌, Option, List, [], ◌∷◌, String, inl, inr, Result, ok, err, map_err,
}
use alarm_daemon.Base.Bytes.{Bytes}
use alarm_daemon.Persistence.Redb.{Redb}
use alarm_daemon.Audio.{no_device}
use alarm_daemon.Audio.Player.{AlarmAudio}
use alarm_daemon.Sounds.Library.{FileSystem, SoundLibrary}
use alarm_daemon.Control.{BusError, Control}
use alarm_daemon.Control.Spec.{Alarm, Request, spec_call}
use alarm_daemon.Control.Requests.{Represents, answer_call}
use alarm_daemon.Control.Requests
use alarm_daemon.Control.Refines.{call-Agrees}
use alarm_daemon.Client.{
  ClientError, dbus, Returns, Zbus, Session, proxy, call_on, list_sounds, arm, disarm, snooze,
  dismiss, status, current_sound, normalised, normalised_answer,
}
use alarm_daemon.Client.Served.{
  Method, arms, disarms, dismisses, snoozes, asks_status, asks_sound, asks_sounds, kind_of, name_of,
  body_of, answer, Serves, IsOurs, Called, client_call-Called,
}
use alarm_daemon.Client.Calls.{
  Reply, finished, armed, sound, sounds, client_call, client_run, call_of, failed, named, heard,
  Hears, over, lost, unheard, answered,
}

module _ (Z : Zbus) where
  abbrev sound_of : Result ClientError Bytes → Result ClientError (Option Bytes)
  sound_of (ok id) = ok (normalised Z id)
  sound_of (err e) = err e

  abbrev reply_of : (m : Method) → Result ClientError (Returns (kind_of m)) → Reply
  reply_of (arms id) r = finished r
  reply_of disarms r = finished r
  reply_of dismisses r = finished r
  reply_of (snoozes n) r = finished r
  reply_of asks_status r = armed r
  reply_of asks_sound r = sound (sound_of r)
  reply_of asks_sounds r = sounds r

  abbrev raw_call : (m : Method) → Session Z → Session Z × Result ClientError (Returns (kind_of m))
  raw_call m s = call_on Z (kind_of m) (name_of m) (body_of m) (proxy Z s)

  normalised_as :
      (x : Session Z × Result ClientError Bytes) → normalised_answer Z x ≡ (x.0, sound_of x.1)
  unfolding normalised_answer
  normalised_as (s, ok id) = refl
  normalised_as (s, err e) = refl

  client_call-raw_call :
      (m : Method) (s : Session Z)
      → client_call Z m s ≡ ((raw_call m s).0, reply_of m (raw_call m s).1)
  unfolding client_call arm disarm dismiss snooze status current_sound list_sounds
  client_call-raw_call (arms id) s = refl
  client_call-raw_call disarms s = refl
  client_call-raw_call dismisses s = refl
  client_call-raw_call (snoozes n) s = refl
  client_call-raw_call asks_status s = refl
  client_call-raw_call asks_sound s =
      ap (λ (x : Session Z × Result ClientError (Option Bytes)). (x.0, sound x.1))
        (normalised_as (raw_call asks_sound s))
  client_call-raw_call asks_sounds s = refl

  failed_as : (m : Method) (e : ClientError) → reply_of m (err e) ≡ failed m e
  failed_as (arms id) e = refl
  failed_as disarms e = refl
  failed_as dismisses e = refl
  failed_as (snoozes n) e = refl
  failed_as asks_status e = refl
  failed_as asks_sound e = refl
  failed_as asks_sounds e = refl

  normalised-named : (id : Bytes) → normalised Z id ≡ named id
  unfolding normalised
  normalised-named [] = refl
  normalised-named (b ∷ id) = refl

module _ (R : Redb) (A : AlarmAudio) (Z : Zbus) (refused : BusError → String) (q : Request)
    (c : Control R A) where
  heard_as :
      (m : Method)
      → (let y = answer R A m q.files q.clock c in
          let z = answer_call R A q (call_of m) c in
          (y.0 ≡ z.0) × (reply_of Z m (map_err y.1 (λ e. dbus (refused e))) ≡ heard refused z.1))
  unfolding answer_call Requests.finished
  heard_as (arms id) = (refl, refl)
  heard_as disarms = (refl, refl)
  heard_as dismisses = (refl, refl)
  heard_as (snoozes n) = (refl, refl)
  heard_as asks_status = (refl, refl)
  heard_as asks_sound = (refl, ap (λ o. sound (ok o)) (normalised-named Z _))
  heard_as asks_sounds = (refl, refl)

module _ (R : Redb) (A : AlarmAudio) (Z : Zbus) (S : Serves R A Z) (library : SoundLibrary)
    (trigger_delay : ℕ) where
  -- The alarm after a call that failed, and after one that was answered.
  abbrev Met : Alarm → Method → Reply → Alarm → Type 0
  Met a m reply a' =
      ((e : ClientError) × (reply ≡ failed m e)
        × ((a' ≡ a)
            ⊎ ((fs : FileSystem) × (a' ≡ (spec_call library trigger_delay fs (call_of m) a).0))))
      ⊎ ((fs : FileSystem) × (let (b, y) = spec_call library trigger_delay fs (call_of m) a in
            (a' ≡ b) × (reply ≡ heard S.refused y)))

  Met-Hears :
      (a a' b : Alarm) (m : Method) (reply : Reply) (ms : List Method) (xs : List Reply)
      → Met a m reply a'
      → Hears library trigger_delay S.refused a' ms xs b
      → Hears library trigger_delay S.refused a (m ∷ ms) (reply ∷ xs) b
  Met-Hears a a' b m reply ms xs (inl (e, f, inl g)) h = rw f (lost a b m ms e xs (rw g at h))
  Met-Hears a a' b m reply ms xs (inl (e, f, inr (fs, g))) h =
      rw f (unheard a b fs m ms e xs (rw g at h))
  Met-Hears a a' b m reply ms xs (inr (fs, (g, f))) h = rw f (answered a b fs m ms xs (rw g at h))

  -- What a call comes to: the client keeps a proxy of its own, and the daemon represents the alarm
  -- that the call is met with.
  abbrev After : Alarm → Method → Session Z × Reply → Type 0
  After a m x =
      IsOurs R A Z S x.0.client.cached
      × ((a' : Alarm) × Represents R A library trigger_delay a' (S.control x.0.world)
          × Met a m x.1 a')

  module _ (m : Method) (s : Session Z) (a : Alarm)
      (h : Represents R A library trigger_delay a (S.control s.world)) where
    raw-After :
        (x : Session Z × Result ClientError (Returns (kind_of m)))
        → Called R A Z S m s x
        → After a m (x.0, reply_of Z m x.1)
    raw-After x (ours, (fs, clock, w)) =
        let q : Request = record {
          files = fs;
          clock = clock;
          from_path = λ _. err no_device;
          call = call_of m;
        } in
        let (h', y) = call-Agrees R A library trigger_delay a (S.control s.world) h q (call_of m) in
        let (z, told) = heard_as R A Z S.refused q (S.control s.world) m in
        (
          ours,
          elim w [
            | inl ((e, f), inl g) ↦
                (a, rw g h, inl (e, ap (reply_of Z m) f ∙ failed_as Z m e, inl refl))
            | inl ((e, f), inr g) ↦ (
              (spec_call library trigger_delay fs (call_of m) a).0,
              rw (g ∙ z) h',
              inl (e, ap (reply_of Z m) f ∙ failed_as Z m e, inr (fs, refl)),
            )
            | inr (g, f) ↦ (
              (spec_call library trigger_delay fs (call_of m) a).0,
              rw (g ∙ z) h',
              inr (fs, (refl, ap (reply_of Z m) f ∙ told ∙ ap (heard S.refused) y)),
            )
          ],
        )

    client_call-After : IsOurs R A Z S s.client.cached → After a m (client_call Z m s)
    client_call-After ours =
        rw (client_call-raw_call Z m s)
          (raw-After (raw_call Z m s) (client_call-Called R A Z S m s ours))

  -- On a bus that serves the daemon's object, and that may lose calls and answers, whatever calls a
  -- client makes, one after the other: what it hears is what may be heard of the alarm that the
  -- object represents, each call lost, or run with its answer lost, or answered as the alarm
  -- answers; and the object represents the alarm that is left.
  pub client_run-Hears :
      (methods : List Method) (s : Session Z) (a : Alarm)
      → IsOurs R A Z S s.client.cached
      → Represents R A library trigger_delay a (S.control s.world)
      → (let (t, replies) = client_run Z methods s in
          (b : Alarm) × Represents R A library trigger_delay b (S.control t.world)
          × Hears library trigger_delay S.refused a methods replies b)
  unfolding client_run
  client_run-Hears [] s a ours h = (a, h, over a)
  client_run-Hears (m ∷ ms) s a ours h =
      let (ours', (a', h', met)) = client_call-After m s a h ours in
      let (b, k, rest) = client_run-Hears ms (client_call Z m s).0 a' ours' h' in
      (b, k, Met-Hears a a' b m (client_call Z m s).1 ms _ met rest)
