-- ===== src/Config.antt =====
-- alarm-daemon/src/config.rs: the bus that the daemon serves, and where its database lies.
use alarm_daemon.Base.{
  ◌≡◌, ◌⊎◌, refl, Option, none, some, [], ◌++◌, if◌then◌else◌, Result, ok, err, inl, inr,
  Bool-cases,
}
use alarm_daemon.Base.Bytes.{Bytes, ascii, bytes_eq, bytes_eq_iff}

pub data BusKind : Type 0 where
  session system : BusKind

-- `AlarmError::Config` of `parse`, with the text that it quotes.
pub data ConfigError : Type 0 where
  config : Bytes → ConfigError

unfoldable pub as_str : BusKind → Bytes
as_str session = ascii "session"
as_str system = ascii "system"

-- `parse`, on the value of `ALARM_DAEMON_BUS`, if it is set and text.
unfoldable pub parse : Option Bytes → Result ConfigError BusKind
parse none = ok session
parse (some raw) =
    if bytes_eq raw []
    then ok session
    else if bytes_eq raw (ascii "session")
    then ok session
    else if bytes_eq raw (ascii "system")
    then ok system
    else err (config raw)

unfoldable pub default_db_path_with_home : BusKind → Bytes → Bytes
default_db_path_with_home system home = ascii "/var/lib/helm/alarm-daemon.redb"
default_db_path_with_home session home = home ++ ascii "/.local/state/helm/alarm-daemon.redb"

-- `default_db_path`, on the value of `HOME`.
unfoldable pub default_db_path : BusKind → Option Bytes → Bytes
unfolding default_db_path_with_home
default_db_path kind none = default_db_path_with_home kind (ascii ".")
default_db_path kind (some home) = default_db_path_with_home kind home

-- The texts that stand for a bus.
abbrev pub Names : BusKind → Bytes → Type 0
Names session raw = (raw ≡ []) ⊎ (raw ≡ as_str session)
Names system raw = raw ≡ as_str system

-- A bus's own name parses to it; and a text parses to a bus only if it names it, the empty text the
-- session bus; any other text is the error that quotes it.
pub parse_outcome :
    (kind : BusKind) (raw : Bytes)
    → (parse (some (as_str kind)) ≡ ok kind)
      × (((k : BusKind) × (parse (some raw) ≡ ok k) × Names k raw)
          ⊎ (parse (some raw) ≡ err (config raw)))
unfolding parse as_str
parse_outcome kind raw = (
  own kind,
  elim (Bool-cases (bytes_eq raw [])) [
    | inl e ↦ inl (session, rw e refl, inl ((bytes_eq_iff raw []).0 e))
    | inr e ↦ elim (Bool-cases (bytes_eq raw (ascii "session"))) [
      | inl f ↦ inl (session, rw (e, f) refl, inr ((bytes_eq_iff raw (ascii "session")).0 f))
      | inr f ↦ elim (Bool-cases (bytes_eq raw (ascii "system"))) [
        | inl g ↦ inl (system, rw (e, f, g) refl, (bytes_eq_iff raw (ascii "system")).0 g)
        | inr g ↦ inr (rw (e, f, g) refl)
      ]
    ]
  ],
)
  where
    own : (kind : BusKind) → parse (some (as_str kind)) ≡ ok kind
    own session = unfold bytes_eq in refl
    own system = unfold bytes_eq in refl
