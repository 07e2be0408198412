-- ===== src/Client.antt =====
-- alarm-daemon-client/src/client.rs, with constants.rs and error.rs: the client of the daemon's
-- interface. The connections and proxies of the crate zbus are a parameter.
pub mod Served
pub mod Answers
pub mod Calls
pub mod Refines
use alarm_daemon.Base.{ℕ, Bool, Option, none, some, List, [], ◌∷◌, String, Result, ok, err, map_err}
use alarm_daemon.Base.Bytes.{Bytes, ascii}

abbrev pub bus_name : Bytes
bus_name = ascii "org.helm.AlarmDaemon"

abbrev pub object_path : Bytes
object_path = ascii "/org/helm/AlarmDaemon"

abbrev pub control_interface : Bytes
control_interface = ascii "org.helm.AlarmDaemon.Control"

pub data ClientError : Type 0 where
  dbus : String → ClientError

-- The body of a call, and the types that answers are read at.
pub data Body : Type 0 where
  empty : Body
  text : Bytes → Body
  number : ℕ → Body

pub data Kind : Type 0 where
  of_unit of_bool of_string of_strings : Kind

abbrev pub Returns : Kind → Type 0
Returns of_unit = Unit {0}
Returns of_bool = Bool
Returns of_string = Bytes
Returns of_strings = List Bytes

-- `zbus`, in the world that its calls reach.
pub record Zbus : Type 1 where
  pub World : Type 0
  pub Connection : Type 0
  pub Proxy : Type 0
  pub session : World → World × Result String Connection
  pub system : World → World × Result String Connection
  pub new_proxy :
      Connection → (bus_name object_path interface : Bytes) → World → World × Result String Proxy
  pub call :
      (k : Kind) → Proxy → (method : Bytes) → Body → World → World × Result String (Returns k)

module _ (Z : Zbus) where
  pub record AlarmDaemonClient : Type 0 where
    pub connection : Z.Connection
    pub cached : Option Z.Proxy

  abbrev pub from_connection : Z.Connection → AlarmDaemonClient
  from_connection connection = record { connection = connection; cached = none }

  connected : Z.World × Result String Z.Connection → Z.World × Result ClientError AlarmDaemonClient
  connected (w, ok connection) = (w, ok (from_connection connection))
  connected (w, err e) = (w, err (dbus e))

  unfoldable pub connect_session : Z.World → Z.World × Result ClientError AlarmDaemonClient
  unfolding connected
  connect_session w = connected (Z.session w)

  unfoldable pub connect_system : Z.World → Z.World × Result ClientError AlarmDaemonClient
  unfolding connected
  connect_system w = connected (Z.system w)

  -- A client with the world.
  pub record Session : Type 0 where
    pub client : AlarmDaemonClient
    pub world : Z.World

  unfoldable pub keep_proxy :
      Session → Z.World × Result String Z.Proxy → Session × Result ClientError Z.Proxy
  keep_proxy s (w, ok p) = (
    record { client = record { connection = s.client.connection; cached = some p }; world = w },
    ok p,
  )
  keep_proxy s (w, err e) = (record { client = s.client; world = w }, err (dbus e))

  -- `OnceCell::get_or_try_init`
  unfoldable pub proxy_or : Session → Option Z.Proxy → Session × Result ClientError Z.Proxy
  unfolding keep_proxy
  proxy_or s (some p) = (s, ok p)
  proxy_or s none =
      keep_proxy s (Z.new_proxy s.client.connection bus_name object_path control_interface s.world)

  unfoldable pub proxy : Session → Session × Result ClientError Z.Proxy
  unfolding proxy_or
  proxy s = proxy_or s s.client.cached

  unfoldable pub call_on :
      (k : Kind) (method : Bytes) (body : Body)
      → Session × Result ClientError Z.Proxy
      → Session × Result ClientError (Returns k)
  call_on k method body (s, err e) = (s, err e)
  call_on k method body (s, ok p) =
      let (w, r) = Z.call k p method body s.world in
      (record { client = s.client; world = w }, map_err r dbus)

  unfoldable pub list_sounds : Session → Session × Result ClientError (List Bytes)
  unfolding proxy call_on
  list_sounds s = call_on of_strings (ascii "ListSounds") empty (proxy s)

  unfoldable pub arm : Bytes → Session → Session × Result ClientError (Unit {0})
  unfolding proxy call_on
  arm sound_id s = call_on of_unit (ascii "Arm") (text sound_id) (proxy s)

  unfoldable pub disarm : Session → Session × Result ClientError (Unit {0})
  unfolding proxy call_on
  disarm s = call_on of_unit (ascii "Disarm") empty (proxy s)

  unfoldable pub snooze : ℕ → Session → Session × Result ClientError (Unit {0})
  unfolding proxy call_on
  snooze duration_s s = call_on of_unit (ascii "Snooze") (number duration_s) (proxy s)

  unfoldable pub dismiss : Session → Session × Result ClientError (Unit {0})
  unfolding proxy call_on
  dismiss s = call_on of_unit (ascii "Dismiss") empty (proxy s)

  unfoldable pub status : Session → Session × Result ClientError Bool
  unfolding proxy call_on
  status s = call_on of_bool (ascii "Status") empty (proxy s)

  -- The empty string stands for no sound.
  unfoldable pub normalised : Bytes → Option Bytes
  normalised [] = none
  normalised (b ∷ id) = some (b ∷ id)

  unfoldable pub normalised_answer :
      Session × Result ClientError Bytes → Session × Result ClientError (Option Bytes)
  unfolding normalised
  normalised_answer (s, ok id) = (s, ok (normalised id))
  normalised_answer (s, err e) = (s, err e)

  unfoldable pub current_sound : Session → Session × Result ClientError (Option Bytes)
  unfolding proxy call_on normalised_answer
  current_sound s = normalised_answer (call_on of_string (ascii "CurrentSound") empty (proxy s))
