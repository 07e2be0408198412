-- ===== src/Client/Answers.antt =====
-- What a client of alarm-daemon-client/src/client.rs hears of the daemon that it called.
use alarm_daemon.Base.{
  ℕ, ◌≡◌, ◌≢◌, refl, sym, ap, ◌∙◌, Bool, true, Option, some, [], ◌∷◌, arith, inl, inr, Result, ok,
  err, map_err_ok,
}
use alarm_daemon.Base.Bytes.{Bytes, ascii, strip_prefix}
use alarm_daemon.State.{armed, is_armed, state_armed}
use alarm_daemon.Persistence.Redb.{Redb}
use alarm_daemon.Audio.Player.{AlarmAudio}
use alarm_daemon.Sounds.Library.{FileSystem, SoundLibrary, resolve_path, resolve_custom}
use alarm_daemon.Control.{BusError, invalid_args, audio}
use alarm_daemon.Control.Calls.{OneTrigger, arm_outcome}
use alarm_daemon.Control.Methods
use alarm_daemon.Client.{
  ClientError, empty, of_string, Returns, Zbus, Session, proxy, call_on, arm, status, current_sound,
  normalised, normalised_answer,
}
use alarm_daemon.Client.Served.{
  Method, arms, asks_status, asks_sound, kind_of, answer, Serves, IsOurs, Called,
  client_call-Called,
}

module _ (R : Redb) (A : AlarmAudio) (Z : Zbus) (S : Serves R A Z) where
  -- The call was answered, so the method was run, and answered the same.
  Called-ok :
      (m : Method) (s : Session Z) (x : Session Z × Result ClientError (Returns (kind_of m)))
      (v : Returns (kind_of m))
      → Called R A Z S m s x
      → x.1 ≡ ok v
      → (fs : FileSystem) × (clock : Option ℕ) × (let y =
            answer R A m fs clock (S.control s.world) in
          (S.control x.0.world ≡ y.0) × (y.1 ≡ ok v))
  Called-ok m s x v (h, (fs, clock, inl ((e, f), g))) o =
      absurd (let no : err e ≡ ok v = sym f ∙ o in ground arith)
  Called-ok m s x v (h, (fs, clock, inr (g, f))) o = (fs, clock, (g, map_err_ok _ _ v (sym f ∙ o)))

  normalised_ok :
      (x : Session Z × Result ClientError Bytes) (o : Option Bytes)
      → (normalised_answer Z x).1 ≡ ok o
      → (id : Bytes) × (x.1 ≡ ok id) × (o ≡ normalised Z id) × ((normalised_answer Z x).0 ≡ x.0)
  unfolding normalised_answer
  normalised_ok (t, ok id) o e = (id, refl, grind arith, refl)
  normalised_ok (t, err x) o e = absurd (ground arith)

  resolved-nonempty :
      (fs : FileSystem) (library : SoundLibrary) (path : Bytes)
      → resolve_path fs library [] ≡ ok path
      → ⊥
  unfolding resolve_path resolve_custom strip_prefix
  resolved-nonempty fs library path e = ground arith

  armed_by :
      (s : Session Z) (id : Bytes) (x : Session Z × Result ClientError (Unit {0}))
      → OneTrigger (S.control s.world).trigger_task (S.control s.world).tasks
      → Called R A Z S (arms id) s x
      → x.1 ≡ ok tt
      → (id ≢ [])
        × ((S.control x.0.world).daemon.state.status ≡ armed)
        × ((S.control x.0.world).daemon.state.current_sound ≡ some id)
  unfolding state_armed
  armed_by s id x one h e =
      let (fs, clock, (g, f)) = Called-ok (arms id) s x tt h e in
      elim (arm_outcome R A (S.control s.world) one fs clock id) [
        | inl (x', found, (same, r)) ↦
            absurd (let no : err (invalid_args (audio x')) ≡ ok tt = sym r ∙ f in ground arith)
        | inr (path, found, r, alone, task, m) ↦ (
          λ blank.
              resolved-nonempty fs (S.control s.world).sounds path
                (ap (λ i. resolve_path fs (S.control s.world).sounds i) (sym blank) ∙ found),
          ap (λ c. c.daemon.state.status) g ∙ ap (λ st. st.status) m.state,
          ap (λ c. c.daemon.state.current_sound) g ∙ ap (λ st. st.current_sound) m.state,
        )
      ]

  normalised-nonempty : (id : Bytes) → id ≢ [] → normalised Z id ≡ some id
  unfolding normalised
  normalised-nonempty [] h = absurd (h refl)
  normalised-nonempty (b ∷ id) h = refl

  -- On a bus that serves the daemon's object, with at most one trigger asleep, if a client is
  -- answered when it arms a sound, and then asks for the status and for the sound, and is answered,
  -- it hears that the daemon is armed, and that the sound is the one that it named.
  pub arm-current_sound :
      (s : Session Z) (id : Bytes)
      → IsOurs R A Z S s.client.cached
      → OneTrigger (S.control s.world).trigger_task (S.control s.world).tasks
      → (is_on : Bool) (sound : Option Bytes) → (arm Z id s).1 ≡ ok tt
      → (status Z (arm Z id s).0).1 ≡ ok is_on
      → (current_sound Z (status Z (arm Z id s).0).0).1 ≡ ok sound
      → (is_on ≡ true) × (sound ≡ some id)
  unfolding arm status current_sound is_armed
  arm-current_sound s id ours one is_on sound e f g =
      let called = client_call-Called R A Z S (arms id) s ours in
      let (nonempty, on, now) = armed_by s id (arm Z id s) one called e in
      let asked = client_call-Called R A Z S asks_status (arm Z id s).0 called.0 in
      let (_, _, (same, b)) =
        Called-ok asks_status (arm Z id s).0 (status Z (arm Z id s).0) is_on asked f in
      let last = client_call-Called R A Z S asks_sound (status Z (arm Z id s).0).0 asked.0 in
      let (spoken, h, n, _) = normalised_ok _ sound g in
      let (_, _, (_, c)) =
        Called-ok asks_sound (status Z (arm Z id s).0).0
          (call_on Z of_string (ascii "CurrentSound") empty (proxy Z (status Z (arm Z id s).0).0))
          spoken last h in
      (
        sym (ok-injective b) ∙ ap is_armed on,
        n
            ∙ ap (normalised Z) (
                sym (ok-injective c)
                ∙ ap (λ c. Methods.current_sound R A c) same
                ∙ ap (λ o. Methods.or_empty R A o) now)
            ∙ normalised-nonempty id nonempty,
      )
    where
      ok-injective : {X : Type 0} {x y : X} → ◌≡◌ {A = Result BusError X} (ok x) (ok y) → x ≡ y
      ok-injective h = grind arith
