-- ===== src/Control/Overlaps/Turns.antt =====
-- A turn of two calls of `arm` that overlap: alarm-daemon/src/ipc/control.rs.
use alarm_daemon.Base.{◌≢◌, refl, sym, ◌∙◌, Bool, true, some, List, inl, inr}
use mathlib.Core.Path.{subst}
use alarm_daemon.Persistence.Redb.{Redb}
use alarm_daemon.Daemon.{AlarmDaemon}
use alarm_daemon.Audio.Player.{AlarmAudio}
use alarm_daemon.Control.{Control, with_daemon, spawn_task, keep_handle}
use alarm_daemon.Control.Races.{
  Plan, Phase, to_cancel, to_arm, to_spawn, to_keep, to_cancel_for_disarm, to_disarm, to_announce,
  returned, trigger_of, advance, turn, begin,
}
use alarm_daemon.Control.Orphans.{IsOrphan, none-ne-handle}
use alarm_daemon.Control.Overlaps.{
  id_of, IsOrphan-with_daemon, IsKept-with_daemon, Own-with_daemon, spawned, IsKept-spawned,
  Own-spawned, IsOlder-spawned, new-IsOrphan,
}
use alarm_daemon.Control.Overlaps.Stages.{
  IsReady, IsAhead, HasOrphan, IsOver, Overlaps, some-ne, fresh-Apart, IsOrphan-keep_handle,
  Own-keep_handle, Apart-some,
}

module _ (R : Redb) (A : AlarmAudio) where
  -- The first call's turn, from each of the ways in which the two may stand.
  pub ready-turn :
      (p q : Plan) (f g : Phase) (c : Control R A)
      → IsReady R A p q (begin R A c f g)
      → Overlaps R A p q (turn R A true (begin R A c f g))
  unfolding turn advance
  ready-turn p q (to_cancel r) g c h = absurd h.own_first
  ready-turn p q (to_arm r) g c h = inl (record {
    no_handle = unfold with_daemon in h.no_handle;
    older = unfold with_daemon in h.older;
    own_first = h.own_first;
    own_second = Own-with_daemon R A c _ c.signals q g h.own_second;
    apart = inl refl;
  })
  ready-turn p q (to_spawn r t) g c h =
      let free : c.trigger_task ≢ some c.next_task =
        λ e. none-ne-handle R A (trigger_of r c.next_task) (sym h.no_handle ∙ e) in
      inl (record {
        no_handle = unfold spawn_task in h.no_handle;
        older = IsOlder-spawned R A c r.path r.delay_ms h.older;
        own_first =
            subst
              (λ (x : Plan).
                IsOrphan R A (trigger_of x c.next_task) (spawned R A c r.path r.delay_ms))
              h.own_first (new-IsOrphan R A c r.path r.delay_ms h.older free);
        own_second = Own-spawned R A c r.path r.delay_ms q g h.own_second;
        apart = fresh-Apart R A q g c h.own_second;
      })
  ready-turn p q (to_keep id t) g c h = inr (
      inl (record {
        late = tt;
        older = unfold keep_handle in h.older;
        id = id;
        kept =
            unfold keep_handle in
            record {
              asleep = h.own_first.asleep;
              alone = h.own_first.alone;
              handled = refl;
              used = h.own_first.used;
            };
        own = Own-keep_handle R A q g c id (Apart-some R A id (id_of g) h.apart) h.own_second;
        apart = Apart-some R A id (id_of g) h.apart;
      }))
  ready-turn p q to_cancel_for_disarm g c h = absurd h.own_first
  ready-turn p q to_disarm g c h = absurd h.own_first
  ready-turn p q (to_announce t) g c h = absurd h.own_first
  ready-turn p q returned g c h = absurd h.own_first

  pub late-turn :
      (p q : Plan) (f g : Phase) (c : Control R A)
      → IsAhead R A p q f g c
      → Overlaps R A p q (turn R A true (begin R A c f g))
  unfolding turn advance
  late-turn p q (to_cancel r) g c h = absurd h.late
  late-turn p q (to_arm r) g c h = absurd h.late
  late-turn p q (to_spawn r t) g c h = absurd h.late
  late-turn p q (to_keep id t) g c h = absurd h.late
  late-turn p q to_cancel_for_disarm g c h = absurd h.late
  late-turn p q to_disarm g c h = absurd h.late
  late-turn p q (to_announce t) g c h = inr (
      inl (record {
        late = tt;
        older = unfold with_daemon in h.older;
        id = h.id;
        kept = IsKept-with_daemon R A c _ _ (trigger_of p h.id) h.kept;
        own = Own-with_daemon R A c _ _ q g h.own;
        apart = h.apart;
      }))
  late-turn p q returned g c h = inr (inl h)

  pub behind-turn :
      (p q : Plan) (f g : Phase) (c : Control R A)
      → IsAhead R A q p g f c
      → Overlaps R A p q (turn R A true (begin R A c f g))
  unfolding turn advance
  behind-turn p q (to_cancel r) g c h = absurd h.own
  behind-turn p q (to_arm r) g c h = inr (
      inr (
        inl (record {
          late = h.late;
          older = unfold with_daemon in h.older;
          id = h.id;
          kept = IsKept-with_daemon R A c _ _ (trigger_of q h.id) h.kept;
          own = h.own;
          apart = λ e. cc;
        })))
  behind-turn p q (to_spawn r t) g c h =
      let free : c.trigger_task ≢ some c.next_task =
        λ e. some-ne R A c.next_task h.id h.kept.used (sym e ∙ h.kept.handled) in
      inr (
        inr (
          inl (record {
            late = h.late;
            older = IsOlder-spawned R A c r.path r.delay_ms h.older;
            id = h.id;
            kept = IsKept-spawned R A c r.path r.delay_ms (trigger_of q h.id) h.kept;
            own =
                subst
                  (λ (x : Plan).
                    IsOrphan R A (trigger_of x c.next_task) (spawned R A c r.path r.delay_ms))
                  h.own (new-IsOrphan R A c r.path r.delay_ms h.older free);
            apart = some-ne R A c.next_task h.id h.kept.used;
          })))
  behind-turn p q (to_keep id t) g c h = inr (
      inr (
        inr (record {
          late_first = tt;
          late_second = h.late;
          lost = inr (
            h.id,
            IsOrphan-keep_handle R A c id (trigger_of q h.id) h.apart h.kept.asleep h.kept.alone
                h.kept.used,
          );
        })))
  behind-turn p q to_cancel_for_disarm g c h = absurd h.own
  behind-turn p q to_disarm g c h = absurd h.own
  behind-turn p q (to_announce t) g c h = absurd h.own
  behind-turn p q returned g c h = absurd h.own

  Lost-with_daemon :
      (c : Control R A) (d : AlarmDaemon R) (signals : List Bool) (p : Plan)
      → HasOrphan R A p c
      → HasOrphan R A p (with_daemon R A c d signals)
  Lost-with_daemon c d signals p (id, h) =
      (id, IsOrphan-with_daemon R A c d signals (trigger_of p id) h)

  pub over-turn :
      (p q : Plan) (f g : Phase) (c : Control R A)
      → IsOver R A p q (begin R A c f g)
      → Overlaps R A p q (turn R A true (begin R A c f g))
  unfolding turn advance
  over-turn p q (to_cancel r) g c h = absurd h.late_first
  over-turn p q (to_arm r) g c h = absurd h.late_first
  over-turn p q (to_spawn r t) g c h = absurd h.late_first
  over-turn p q (to_keep id t) g c h = absurd h.late_first
  over-turn p q to_cancel_for_disarm g c h = absurd h.late_first
  over-turn p q to_disarm g c h = absurd h.late_first
  over-turn p q (to_announce t) g c h = inr (
      inr (
        inr (record {
          late_first = tt;
          late_second = h.late_second;
          lost = elim h.lost [
            | inl l ↦ inl (Lost-with_daemon c _ _ p l)
            | inr l ↦ inr (Lost-with_daemon c _ _ q l)
          ];
        })))
  over-turn p q returned g c h = inr (inr (inr h))
