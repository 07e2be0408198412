-- ===== src/Examples/Storage.antt =====
-- The stored state on concrete data.
use alarm_daemon.Base.{
  ℕ, ◌≡◌, refl, true, none, some, [], ◌∷◌, arith, ok, err, take, replicate, All, length-replicate,
  if◌then◌else◌,
}
use alarm_daemon.Base.Bytes.{Bytes, IsByte}
use alarm_daemon.Base.Utf8.{is_utf8}
use alarm_daemon.State.{PersistedState}
use alarm_daemon.Persistence.Codec.{
  corrupted, sound_utf8, encode_state, encode_body_v1, decode_state,
}
use alarm_daemon.Persistence.Laws.{
  IsStorable, decode_state-encode_state, decode_state-encode_body_v1, encode_state_long_sound,
}
use alarm_daemon.Persistence.Robust.{Answers, decode_state-Answers, decode_state_again}
use alarm_daemon.Persistence.Memory.{memory, memory-IsTransactional}
use alarm_daemon.Persistence.Store.{Store, load, save, lock_db, parent}
use alarm_daemon.Persistence.Durable.{Loaded, load-Loaded}
use alarm_daemon.Persistence.Saves.{Saved, save-Saved, reopened, Recovers, load-save}
use alarm_daemon.Examples.{new_store, bell_state}

pub bell_state-IsStorable : IsStorable bell_state
unfolding is_utf8
bell_state-IsStorable = record { in_range = omega arith; sound_fits = (refl, omega arith) }

decode_state-encode_state_example : decode_state (encode_state bell_state) ≡ ok bell_state
decode_state-encode_state_example = decode_state-encode_state bell_state bell_state-IsStorable

decode_state-encode_body_v1_example : decode_state (encode_body_v1 bell_state) ≡ ok bell_state
decode_state-encode_body_v1_example = decode_state-encode_body_v1 bell_state bell_state-IsStorable

abbrev long_sound : Bytes
long_sound = replicate 65536 120

encode_state_long_sound_example :
    decode_state (
      encode_state
        (record { armed = true; next_fire_unix_ms = none; current_sound = some long_sound }))
    ≡ (if is_utf8 (take 65535 long_sound)
        then ok (record {
          armed = true;
          next_fire_unix_ms = none;
          current_sound = some (take 65535 long_sound);
        })
        else err (corrupted sound_utf8))
encode_state_long_sound_example =
    encode_state_long_sound true none long_sound tt
      (omega (arith, length-replicate {A = ℕ} 65536 120))

-- A legacy value: armed, with no fire time and no sound.
abbrev legacy : Bytes
legacy = 1 ∷ 0 ∷ 0 ∷ []

abbrev legacy_state : PersistedState
legacy_state = record { armed = true; next_fire_unix_ms = none; current_sound = none }

legacy_read : decode_state legacy ≡ ok legacy_state
unfolding decode_state
legacy_read = refl

legacy-IsByte : All IsByte legacy
legacy-IsByte = (omega arith, (omega arith, (omega arith, tt)))

decode_state-Answers_example : Answers IsStorable (decode_state legacy)
decode_state-Answers_example = decode_state-Answers legacy legacy-IsByte (omega arith)

decode_state_again_example : decode_state (encode_state legacy_state) ≡ ok legacy_state
decode_state_again_example =
    decode_state_again legacy legacy_state legacy-IsByte (omega arith) legacy_read

load-Loaded_example : Loaded memory memory-IsTransactional new_store (load memory new_store)
load-Loaded_example = load-Loaded memory memory-IsTransactional new_store tt

save-Saved_example :
    Saved memory memory-IsTransactional bell_state new_store (save memory bell_state new_store)
save-Saved_example = save-Saved memory memory-IsTransactional bell_state new_store tt

abbrev pub saved_store : Store memory
saved_store = (save memory bell_state new_store).0

saved : save memory bell_state new_store ≡ (saved_store, ok tt)
unfolding save lock_db parent
saved = refl

load-save_example :
    Recovers memory memory-IsTransactional bell_state (load memory (reopened memory saved_store)).1
load-save_example =
    load-save memory memory-IsTransactional bell_state new_store saved_store bell_state-IsStorable
      tt saved
