-- ===== src/Client/Served.antt =====
-- The client of alarm-daemon-client/src/client.rs on a bus that the daemon's object serves
-- (alarm-daemon/src/ipc).
use alarm_daemon.Base.{
  ℕ, ◌≡◌, ◌⊎◌, refl, ap, ◌∙◌, Option, none, some, String, inl, inr, Result, ok, err, map_err,
}
use alarm_daemon.Base.Bytes.{Bytes, ascii}
use alarm_daemon.Persistence.Redb.{Redb}
use alarm_daemon.Audio.Player.{AlarmAudio}
use alarm_daemon.Sounds.Library.{FileSystem}
use alarm_daemon.Control.{BusError, Control}
use alarm_daemon.Control.Methods
use alarm_daemon.Startup
use alarm_daemon.Client.{
  ClientError, dbus, Body, empty, text, number, Kind, of_unit, of_bool, of_string, of_strings,
  Returns, Zbus, Session, proxy, proxy_or, keep_proxy, call_on,
}

-- The calls of the daemon's interface, with the names that `zbus` derives for the methods.
pub data Method : Type 0 where
  arms : Bytes → Method
  disarms dismisses : Method
  snoozes : ℕ → Method
  asks_status asks_sound asks_sounds : Method

abbrev pub name_of : Method → Bytes
name_of (arms id) = ascii "Arm"
name_of disarms = ascii "Disarm"
name_of dismisses = ascii "Dismiss"
name_of (snoozes n) = ascii "Snooze"
name_of asks_status = ascii "Status"
name_of asks_sound = ascii "CurrentSound"
name_of asks_sounds = ascii "ListSounds"

abbrev pub body_of : Method → Body
body_of (arms id) = text id
body_of (snoozes n) = number n
body_of _ = empty

abbrev pub kind_of : Method → Kind
kind_of asks_status = of_bool
kind_of asks_sound = of_string
kind_of asks_sounds = of_strings
kind_of _ = of_unit

module _ (R : Redb) (A : AlarmAudio) where
  -- What the daemon's method answers.
  abbrev pub answer :
      (m : Method)
      → FileSystem
      → Option ℕ
      → Control R A
      → Control R A × Result BusError (Returns (kind_of m))
  answer (arms id) fs clock c = Methods.arm R A fs clock id c
  answer disarms fs clock c = Methods.disarm R A c
  answer dismisses fs clock c = Methods.dismiss R A c
  answer (snoozes n) fs clock c = Methods.snooze R A fs clock n c
  answer asks_status fs clock c = (c, ok (Methods.status R A c))
  answer asks_sound fs clock c = (c, ok (Methods.current_sound R A c))
  answer asks_sounds fs clock c = (c, Methods.list_sounds R A fs c)

  -- A bus on which the daemon's object is served under its names. Making a proxy does not reach the
  -- object. A call of a proxy for it fails on the way, with or without having run, or runs and
  -- answers as the method does.
  pub record Serves (Z : Zbus) : Type 1 where
    pub control : Z.World → Control R A
    pub files : Z.World → FileSystem
    pub clock : Z.World → Option ℕ
    pub refused : BusError → String
    pub Ours : Z.Proxy → Type 0
    pub made :
        (c : Z.Connection) (w : Z.World) (p : Z.Proxy)
        → (Z.new_proxy c Startup.bus_name Startup.object_path Startup.control_interface w).1 ≡ ok p
        → Ours p
    pub unmoved :
        (c : Z.Connection) (b o i : Bytes) (w : Z.World)
        → control (Z.new_proxy c b o i w).0 ≡ control w
    pub delivered :
        (m : Method) (p : Z.Proxy) (w : Z.World)
        → Ours p
        → (let x = Z.call (kind_of m) p (name_of m) (body_of m) w in
            let y = answer m (files w) (clock w) (control w) in
            (((e : String) × (x.1 ≡ err e)) × ((control x.0 ≡ control w) ⊎ (control x.0 ≡ y.0)))
            ⊎ ((control x.0 ≡ y.0) × (x.1 ≡ map_err y.1 refused)))

  module _ (Z : Zbus) (S : Serves Z) where
    -- A cached proxy is one for the daemon.
    abbrev pub IsOurs : Option Z.Proxy → Type 0
    IsOurs none = Unit {0}
    IsOurs (some p) = S.Ours p

    abbrev Proxied : Session Z → Session Z × Result ClientError Z.Proxy → Type 0
    Proxied s (t, ok p) =
        S.Ours p × IsOurs t.client.cached × (S.control t.world ≡ S.control s.world)
    Proxied s (t, err e) = IsOurs t.client.cached × (S.control t.world ≡ S.control s.world)

    keep_proxy-Proxied :
        (s : Session Z) (x : Z.World × Result String Z.Proxy)
        → S.control x.0 ≡ S.control s.world
        → ((p : Z.Proxy) → x.1 ≡ ok p → S.Ours p)
        → IsOurs s.client.cached
        → Proxied s (keep_proxy Z s x)
    unfolding keep_proxy
    keep_proxy-Proxied s (w, ok p) e made h = (made p refl, made p refl, e)
    keep_proxy-Proxied s (w, err x) e made h = (h, e)

    proxy_or-Proxied :
        (s : Session Z) (cached : Option Z.Proxy)
        → IsOurs cached
        → IsOurs s.client.cached
        → Proxied s (proxy_or Z s cached)
    unfolding proxy_or
    proxy_or-Proxied s (some p) h k = (h, k, refl)
    proxy_or-Proxied s none h k =
        keep_proxy-Proxied s _ (S.unmoved s.client.connection _ _ _ s.world)
          (λ p e. S.made s.client.connection s.world p e) k

    -- What a call of the client meets: it fails on the way, with or without having run, or it runs
    -- and answers as the daemon's method.
    abbrev pub Called :
        (m : Method) → Session Z → Session Z × Result ClientError (Returns (kind_of m)) → Type 0
    Called m s x =
        IsOurs x.0.client.cached
        × ((fs : FileSystem) × (clock : Option ℕ) × (let y =
                answer m fs clock (S.control s.world) in
              (((e : ClientError) × (x.1 ≡ err e))
                × ((S.control x.0.world ≡ S.control s.world) ⊎ (S.control x.0.world ≡ y.0)))
              ⊎ ((S.control x.0.world ≡ y.0) × (x.1 ≡ map_err y.1 (λ e. dbus (S.refused e))))))

    call_on-Called :
        (m : Method) (s : Session Z) (x : Session Z × Result ClientError Z.Proxy)
        → Proxied s x
        → Called m s (call_on Z (kind_of m) (name_of m) (body_of m) x)
    unfolding call_on
    call_on-Called m s (t, err e) (h, k) =
        (h, (S.files s.world, S.clock s.world, inl ((e, refl), inl k)))
    call_on-Called m s (t, ok p) (o, h, k) =
        let now = λ (c : Control R A). answer m (S.files t.world) (S.clock t.world) c in
        (
          h,
          (
            S.files t.world,
            S.clock t.world,
            elim (S.delivered m p t.world o) [
              | inl ((e, f), inl g) ↦ inl ((dbus e, ap (λ r. map_err r dbus) f), inl (g ∙ k))
              | inl ((e, f), inr g) ↦
                  inl ((dbus e, ap (λ r. map_err r dbus) f), inr (g ∙ ap (λ c. (now c).0) k))
              | inr (g, f) ↦ inr (
                g ∙ ap (λ c. (now c).0) k,
                ap (λ r. map_err r dbus) f
                    ∙ twice (now (S.control t.world)).1
                    ∙ ap (λ c. map_err (now c).1 (λ e. dbus (S.refused e))) k,
              )
            ],
          ),
        )
      where
        twice :
            {X : Type 0} (r : Result BusError X)
            → map_err (map_err r S.refused) dbus ≡ map_err r (λ e. dbus (S.refused e))
        twice (ok x) = refl
        twice (err e) = refl

    pub client_call-Called :
        (m : Method) (s : Session Z)
        → IsOurs s.client.cached
        → Called m s (call_on Z (kind_of m) (name_of m) (body_of m) (proxy Z s))
    unfolding proxy
    client_call-Called m s h = call_on-Called m s _ (proxy_or-Proxied s s.client.cached h h)
